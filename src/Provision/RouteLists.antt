-- ===== src/Provision/RouteLists.antt =====
-- The lists of route identifiers and of networks that a row holds as one text.
use Prim.Native.Char.{code}
use Prim.Native.String.append
use text.Mathlib.TextLemmas.{append-nil as str_append-nil}
use backend_sandbox_service.Prelude.{
  ◌≡◌, refl, ap, Bool, true, false, not, some, List, [], ◌∷◌, String, str_append, str_eq, eq_iff,
  ◌==◌, ◌&&◌, all, arith, Bool-cases, inl, inr,
}
use backend_sandbox_service.Provision.{join, split_parts, split, set_parts, get_list}

abbrev pub no_comma : String → Bool
no_comma String.[] = true
no_comma (String.◌∷◌ c s) = not (code c == 44) && no_comma s

-- A text that is not empty and holds no comma.
abbrev pub is_plain : String → Bool
is_plain String.[] = false
is_plain (String.◌∷◌ c s) = no_comma (String.◌∷◌ c s)

split_parts-append :
    (p s : String)
    → no_comma p ≡ true
    → split_parts (str_append p s) ≡ (str_append p (split_parts s).0, (split_parts s).1)
unfolding split_parts
split_parts-append String.[] s h = rw (append.nil s, append.nil (split_parts s).0) refl
split_parts-append (String.◌∷◌ c p) s h =
    rw (append.cons c p s, append.cons c p (split_parts s).0)
      (ground (arith, split_parts-append p s))

split_parts-plain : (p : String) → no_comma p ≡ true → split_parts p ≡ (p, [])
unfolding split_parts
split_parts-plain String.[] h = refl
split_parts-plain (String.◌∷◌ c p) h = ground (arith, split_parts-plain p)

no_comma-plain : (p : String) → is_plain p ≡ true → no_comma p ≡ true
no_comma-plain String.[] h = refl
no_comma-plain (String.◌∷◌ c p) h = h

is_comma : String → Bool
is_comma (String.◌∷◌ c String.[]) = code c == 44
is_comma _ = false

split_parts-comma :
    (sep s : String)
    → is_comma sep ≡ true
    → split_parts (str_append sep s) ≡ ("", (split_parts s).0 ∷ (split_parts s).1)
unfolding split_parts is_comma
split_parts-comma String.[] s h = ground arith
split_parts-comma (String.◌∷◌ c String.[]) s h =
    rw (append.cons c String.[] s, append.nil s) (ground arith)
split_parts-comma (String.◌∷◌ c (String.◌∷◌ d r)) s h = ground arith

is_blank : String → Bool
is_blank String.[] = true
is_blank _ = false

str_eq-blank : (s : String) → str_eq s "" ≡ true → is_blank s ≡ true
unfolding is_blank
str_eq-blank s h = rw ((eq_iff s "").0 h) refl

is_plain-blank : (id : String) → is_plain id ≡ true → str_eq id "" ≡ false
unfolding is_blank
is_plain-blank String.[] h = ground arith
is_plain-blank (String.◌∷◌ c s) h = ground (arith, str_eq-blank (String.◌∷◌ c s))

split-join :
    (id : String) (ids : List String)
    → all is_plain (id ∷ ids) ≡ true
    → split_parts (join (id ∷ ids)) ≡ (id, ids)
unfolding join
split-join id [] h = split_parts-plain id (no_comma-plain id (ground arith))
split-join id (next ∷ ids) h = ground (
  arith,
  no_comma-plain id,
  split_parts-append id (str_append "," (join (next ∷ ids))),
  split_parts-comma "," (join (next ∷ ids)) (unfold is_comma in refl),
  split-join next ids,
  str_append-nil id,
)

set_parts-plain : (ids : List String) → all is_plain ids ≡ true → set_parts ids ≡ ids
unfolding set_parts
set_parts-plain [] h = refl
set_parts-plain (id ∷ ids) h = ground (arith, set_parts-plain ids, is_plain-blank id)

join-blank :
    (id : String) (ids : List String)
    → all is_plain (id ∷ ids) ≡ true
    → str_eq (join (id ∷ ids)) "" ≡ false
unfolding split_parts
join-blank id ids h = elim (Bool-cases (str_eq (join (id ∷ ids)) "")) [
  | inr e ↦ e
  | inl e ↦ ground (
    arith,
    ap split_parts ((eq_iff (join (id ∷ ids)) "").0 e),
    split-join id ids h,
    is_plain-blank id,
    eq_iff id "",
  )
]

-- A list of texts that are not empty and hold no comma is read from a row as it was saved in it.
pub get_list-join : (ids : List String) → all is_plain ids ≡ true → get_list (some (join ids)) ≡ ids
unfolding get_list split
get_list-join [] h = unfold join in refl
get_list-join (id ∷ ids) h =
    ground (arith, join-blank id ids h, split-join id ids h, set_parts-plain (id ∷ ids) h)
