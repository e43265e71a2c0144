-- ===== src/Examples/ProvisionRuns.antt =====
-- The provisioning of a sandbox with two entrypoints, where calls fail or the sandbox is deleted.
use backend_sandbox_service.Prelude.{
  ℕ, ◌≡◌, refl, Bool, true, false, none, some, List, [], ◌∷◌, length, if◌then◌else◌, inl, ◌==◌,
  arith,
}
use backend_sandbox_service.Errors.{ok}
use backend_sandbox_service.Netbird
use backend_sandbox_service.Provision.{
  Resource, VpnEntrypoint, CreateReply, no_response, response, Made, made_group, Step,
  ProvisionState, Service, join, get_list, make_network_id, provision_unguarded,
  provision_entrypoints, provision_entrypoint, created_id,
}
use backend_sandbox_service.Provision.RouteLists.{get_list-join}
use backend_sandbox_service.Provision.Writes.{plain_id}
use backend_sandbox_service.Provision.Ledger.{
  rows_of, made_of, describe, provision_entrypoints-describe,
}
use backend_sandbox_service.Provision.Guards.{provision_unguarded-ok}
use backend_sandbox_service.Provision.Losses.{provision_entrypoint-orphan}

abbrev answer : ℕ → CreateReply
answer n = if n == 9 then no_response else response 200 (some (some "id1", some "key"))

-- The service cannot be reached for the call after nine steps.
abbrev service : Service
service = record { reply = λ steps _. answer (length steps); exists = λ _. ok true }

answer-plain : (n : ℕ) → plain_id (created_id (answer n)) ≡ true
unfolding created_id
answer-plain n = ground arith

abbrev at_first : List Step → Bool
at_first [] = true
at_first (_ ∷ []) = true
at_first (_ ∷ _ ∷ _) = false

-- The sandbox is deleted after two steps.
abbrev deleted : Service
deleted = record service { exists = λ steps. ok (at_first steps) }

abbrev teardown : Netbird.Service
teardown = record { monotonic = length; reply = λ _ _. Netbird.response 404 none }

abbrev start : ProvisionState
start = record {
  rows = [];
  access_row = none;
  access = none;
  created = [];
  made = [];
  steps = [];
  teardown_steps = [];
}

abbrev entrypoints : List VpnEntrypoint
entrypoints =
    record { name = "server"; routes = "10.1.0.0/24" ∷ "10.2.0.0/24" ∷ [] }
    ∷ record { name = "web"; routes = "10.3.0.0/24" ∷ [] }
    ∷ []

get_list-join_example : get_list (some (join ("r1" ∷ "r2" ∷ "r3" ∷ []))) ≡ "r1" ∷ "r2" ∷ "r3" ∷ []
get_list-join_example = get_list-join ("r1" ∷ "r2" ∷ "r3" ∷ []) refl

provision_entrypoints-describe_example :
    (entries : List (Resource × List Made)) × (describe entrypoints entries ≡ true)
    × ((provision_entrypoints service "st-p1-s2" 86400 "access" entrypoints start).0 ≡ ok tt)
    × ((provision_entrypoints service "st-p1-s2" 86400 "access" entrypoints start).1.rows
        ≡ rows_of entries)
    × ((provision_entrypoints service "st-p1-s2" 86400 "access" entrypoints start).1.made
        ≡ made_of entries)
provision_entrypoints-describe_example =
    provision_entrypoints-describe service "st-p1-s2" 86400 (λ _. refl)
      (λ steps call. answer-plain (length steps)) "access" entrypoints start refl refl

provision_unguarded-ok_example :
    (provision_unguarded deleted "st-p1-s2" 86400 teardown
      (ok true)
      (ok (entrypoints, none))
      start).0
    ≡ ok tt
provision_unguarded-ok_example =
    provision_unguarded-ok deleted "st-p1-s2" 86400 (λ _. refl) teardown (ok true)
      (ok (entrypoints, none)) start (inl refl)

provision_entrypoint-orphan_example :
    ((provision_entrypoint deleted "st" 86400 "access"
        (record { name = "web"; routes = [] })
        start).0
      ≡ ok tt)
    × ((provision_entrypoint deleted "st" 86400 "access"
          (record { name = "web"; routes = [] })
          start).1.made
        ≡ made_group "id1" ∷ [])
    × ((provision_entrypoint deleted "st" 86400 "access"
          (record { name = "web"; routes = [] })
          start).1.rows
        ≡ [])
    × ((provision_entrypoint deleted "st" 86400 "access"
          (record { name = "web"; routes = [] })
          start).1.created
        ≡ [])
unfolding created_id
provision_entrypoint-orphan_example =
    provision_entrypoint-orphan deleted "st" 86400 "access" "id1"
      (record { name = "web"; routes = [] }) start refl refl refl (λ _. refl)

network_id :
    make_network_id "st-p1-s2" "entrypoint-host" "10.1.0.0/24" ≡ "st-p1-s2-entrypoi-10-1-0-0-24"
unfolding make_network_id
network_id = refl
