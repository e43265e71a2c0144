-- ===== src/Netbird/Client.antt =====
-- The requests of the NetBird client, of crczp/sandbox_common_lib/netbird_client.py: what a call
-- makes of the reply of the HTTP session.
use backend_sandbox_service.Prelude.{
  ℕ, Bool, not, Option, none, some, List, [], ◌∷◌, String, str_eq, leb, ◌==◌, ◌&&◌, if◌then◌else◌,
}
use backend_sandbox_service.Errors.{value_error, netbird_api_error, Result, ok, err}

pub data NetbirdCall : Type 0 where
  delete_policy delete_route delete_setup_key list_group_peer_ids delete_peer delete_group :
      String → NetbirdCall
  delete_nameserver_group : String → NetbirdCall

-- An entry of a group's `peers`: an object, whose `id` may be missing, or a text.
pub data Peer : Type 0 where
  peer_object : (id : Option String) → Peer
  peer_text : String → Peer

-- What the HTTP session gives: an exception of the `requests` library, or a response, whose body may
-- be no JSON.
pub data Reply : Type 0 where
  unreachable : Reply
  response : (status_code : ℕ) → (peers : Option (List Peer)) → Reply

-- `_request`: a status from 400 on is an error, unless it is accepted.
unfoldable pub request : (ℕ → Bool) → Reply → Result (ℕ × Option (List Peer))
request accepted unreachable = err netbird_api_error
request accepted (response status_code peers) =
    if leb 400 status_code && not (accepted status_code)
    then err netbird_api_error
    else ok (status_code, peers)

abbrev pub not_found : ℕ → Bool
not_found status_code = status_code == 404

unfoldable pub is_empty : String → Bool
is_empty s = str_eq s ""

unfoldable pub peer_ids : List Peer → List String
unfolding is_empty
peer_ids [] = []
peer_ids (peer_object none ∷ peers) = peer_ids peers
peer_ids (peer_object (some id) ∷ peers) =
    let rest = peer_ids peers in if is_empty id then rest else id ∷ rest
peer_ids (peer_text id ∷ peers) = id ∷ peer_ids peers

-- The peers of a group that was found: of what is no JSON nothing can be read.
unfoldable pub peers_of : ℕ × Option (List Peer) → Result (List String)
unfolding peer_ids
peers_of (status_code, none) = if status_code == 404 then ok [] else err value_error
peers_of (status_code, some peers) = if status_code == 404 then ok [] else ok (peer_ids peers)
