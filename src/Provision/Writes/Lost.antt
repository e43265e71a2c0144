-- ===== src/Provision/Writes/Lost.antt =====
-- The rows of other entrypoints, and what a failed call has left without a row.
use backend_sandbox_service.Prelude.{
  ◌≡◌, refl, Bool, true, false, not, none, List, [], ◌∷◌, ◌++◌, String, str_eq, eq_iff, all, arith,
}
use backend_sandbox_service.Errors.{Result, ok, err}
use backend_sandbox_service.Provision.{
  Resource, put_row, find_row, Made, CreateCall, made_group, made_setup_key, made_route,
  made_policy, made_nameserver_group, unread, unread_of, CreateReply, no_response, response,
}
use backend_sandbox_service.Provision.RouteLists.{is_plain}

abbrev pub others : String → List Resource → Bool
others host_name rows = all (λ row. not (str_eq row.entrypoint_host_name host_name)) rows

abbrev pub plain_id : Result String → Bool
plain_id (ok id) = is_plain id
plain_id (err _) = true

unfoldable pub made_routes : List String → List Made
made_routes [] = []
made_routes (id ∷ ids) = made_route id ∷ made_routes ids

abbrev pub is_route : Made → Bool
is_route (made_route _) = true
is_route _ = false

-- Routes, and after them at most one object of a call whose reply was not read.
abbrev pub is_lost : List Made → Bool
is_lost [] = true
is_lost (unread _ ∷ []) = true
is_lost (unread _ ∷ _ ∷ _) = false
is_lost (made_route _ ∷ lost) = is_lost lost
is_lost (made_group _ ∷ lost) = false
is_lost (made_setup_key _ ∷ lost) = false
is_lost (made_policy _ ∷ lost) = false
is_lost (made_nameserver_group _ ∷ lost) = false

pub unread_of-is_lost :
    (reply : CreateReply) (call : CreateCall) → is_lost (unread_of reply call) ≡ true
unfolding unread_of
unread_of-is_lost no_response call = refl
unread_of-is_lost (response status_code json) call = ground arith

pub find_row-others :
    (host_name : String) (rows : List Resource)
    → others host_name rows ≡ true
    → find_row host_name rows ≡ none
unfolding find_row
find_row-others host_name [] h = refl
find_row-others host_name (row ∷ rows) h = ground (arith, find_row-others host_name rows)

pub put_row-others :
    (nbr old : Resource) (rows : List Resource)
    → others nbr.entrypoint_host_name rows ≡ true
    → old.entrypoint_host_name ≡ nbr.entrypoint_host_name
    → put_row nbr (rows ++ old ∷ []) ≡ rows ++ nbr ∷ []
unfolding put_row
put_row-others nbr old [] h e =
    ground (arith, eq_iff old.entrypoint_host_name nbr.entrypoint_host_name)
put_row-others nbr old (row ∷ rows) h e = ground (arith, put_row-others nbr old rows)
