-- ===== src/Examples/NetbirdRuns.antt =====
-- The teardown of a sandbox with one entrypoint.
use backend_sandbox_service.Prelude.{◌≡◌, refl, true, none, some, [], ◌∷◌, inl, length, List}
use backend_sandbox_service.Errors.{ok}
use backend_sandbox_service.Netbird.{
  Service, response, peer_object, peer_text, Step, NetbirdCall, TeardownState,
  destroy_netbird_for_sandbox, teardown_budget_seconds, unreachable,
}
use backend_sandbox_service.Prelude.Int.{pos, ◌+ℤ◌}
use backend_sandbox_service.Netbird.Effects.{is_readable}
use backend_sandbox_service.Netbird.Complete.{destroy_netbird_for_sandbox-rows}
use backend_sandbox_service.Netbird.Pace.{IsPaced}
use backend_sandbox_service.Netbird.Total.{destroy_netbird_for_sandbox-ok}
use backend_sandbox_service.Netbird.Budget.{destroy_netbird_for_sandbox-IsPaced}

-- A service that answers with a group of two peers, by a clock that moves with each step.
abbrev service : Service
service = record {
  monotonic = length;
  reply = λ steps call. response 200 (some (peer_object (some "p1") ∷ peer_text "p2" ∷ []));
}

abbrev sandbox_rows : TeardownState
sandbox_rows = record {
  rows =
      record {
        id = 1;
        policy_id = some "pol";
        route_id_list = "r1" ∷ "r2" ∷ [];
        host_setup_key_id = some "k";
        host_group_id = some "g";
      }
      ∷ [];
  access = some (record {
    dns_nameserver_group_id = none;
    access_setup_key_id = some "ak";
    access_group_id = some "ag";
  });
  steps = [];
}

destroy_netbird_for_sandbox-ok_example :
    (destroy_netbird_for_sandbox service (ok true) none sandbox_rows).0 ≡ ok tt
destroy_netbird_for_sandbox-ok_example =
    destroy_netbird_for_sandbox-ok service (ok true) none sandbox_rows (inl refl)

destroy_netbird_for_sandbox-IsPaced_example :
    IsPaced 0 (destroy_netbird_for_sandbox service (ok true) none sandbox_rows).1.steps
destroy_netbird_for_sandbox-IsPaced_example =
    destroy_netbird_for_sandbox-IsPaced service (ok true) none sandbox_rows refl

-- A service whose clock stands, and that cannot be reached for one of the calls.
abbrev patient : Service
patient = record {
  monotonic = λ _. 100;
  reply = λ steps call. elim steps [
    | [] ↦ unreachable
    | _ ∷ _ ↦ response 200 (some (peer_text "p" ∷ []))
  ];
}

abbrev is_patient :
    (steps : List Step) (call : NetbirdCall) → is_readable (patient.reply steps call) ≡ true
is_patient [] call = refl
is_patient (_ ∷ _) call = refl

destroy_netbird_for_sandbox-rows_example :
    ((destroy_netbird_for_sandbox patient (ok true) (some (pos 5)) sandbox_rows).1.rows ≡ [])
    × ((destroy_netbird_for_sandbox patient (ok true) (some (pos 5)) sandbox_rows).1.access ≡ none)
unfolding ◌+ℤ◌ teardown_budget_seconds
destroy_netbird_for_sandbox-rows_example =
    destroy_netbird_for_sandbox-rows patient (some (pos 5)) sandbox_rows (λ _. refl) is_patient
