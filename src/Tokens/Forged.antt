-- ===== src/Tokens/Forged.antt =====
-- Which tokens get claims: those whose subject alone the cache knows, and those of an allowed issuer.
-- Whether a user is let in with such claims is for `get_or_create_user` to say, which asks the
-- user-and-group service with the token itself.
use backend_sandbox_service.Prelude.{
  ◌≡◌, refl, false, none, [], ◌∷◌, String, str_eq, eq_refl, arith, ◌⊎◌, inl, inr,
}
use backend_sandbox_service.Errors.{authentication_failed, ok, err, Result-cases}
use backend_sandbox_service.Tokens.{
  Userinfo, TokenState, Oidc, sub_of, cached_userinfo, cached_for, find_provider, extract_issuer,
  ask_provider, set_cache, or_ask, get_userinfo,
}

List-cases : (xs : Userinfo) → (xs ≡ []) ⊎ ((c : String × String) × (cs : Userinfo) × (xs ≡ c ∷ cs))
List-cases [] = inl refl
List-cases (c ∷ cs) = inr (c, cs, refl)

module _ (oidc : Oidc) where
  -- Once `get_userinfo` gave claims that are not empty for a token whose subject is not empty, it
  -- gives the same claims for any token with the same text for its subject and changes nothing,
  -- whatever the issuer and the signature of that token are and whatever the providers answer by then.
  pub get_userinfo-forged :
      (genuine forged : String) (later : Oidc) (claim : String × String) (claims : Userinfo)
      (s : TokenState)
      → (get_userinfo oidc genuine s).0 ≡ ok (claim ∷ claims)
      → sub_of (later.payload forged) ≡ sub_of (oidc.payload genuine)
      → str_eq (sub_of (oidc.payload genuine)) "" ≡ false
      → get_userinfo later forged (get_userinfo oidc genuine s).1
        ≡ (ok (claim ∷ claims), (get_userinfo oidc genuine s).1)
  unfolding get_userinfo or_ask cached_for cached_userinfo set_cache
  get_userinfo-forged genuine forged later claim claims s given same nonempty =
      let sub = sub_of (oidc.payload genuine) in
      elim (List-cases (cached_userinfo sub s.cache)) [
        | inr (c, cs, found) ↦ ground (arith, given, same, nonempty, found)
        | inl missing ↦ elim (Result-cases (ask_provider oidc genuine)) [
          | inr (e, failed) ↦ ground (arith, given, nonempty, missing, failed)
          | inl (userinfo, asked) ↦
              ground (arith, given, same, nonempty, missing, asked, eq_refl sub)
        ]
      ]

  -- A token whose subject the cache does not know and whose issuer is not allowed is refused, and
  -- the cache stays as it was.
  pub get_userinfo-refused :
      (token issuer : String) (s : TokenState)
      → cached_for oidc (sub_of (oidc.payload token)) s.cache ≡ []
      → extract_issuer (oidc.iss token) ≡ ok issuer
      → find_provider issuer oidc.providers ≡ none
      → get_userinfo oidc token s ≡ (err authentication_failed, s)
  unfolding get_userinfo or_ask ask_provider
  get_userinfo-refused token issuer s unknown issued refused =
      ground (arith, unknown, issued, refused)
