-- ===== src/Groups/Notices.antt =====
-- The mails that a request group sends.
use backend_sandbox_service.Prelude.{
  ℕ, ◌+◌, true, Option, none, some, List, [], ◌∷◌, ◌==◌, if◌then◌else◌,
}
use backend_sandbox_service.Errors.{Exc, ok}
use backend_sandbox_service.Groups.{Mail, fail_notification, Smtp, GroupState}

-- A server that is configured and takes every mail.
abbrev pub working : Smtp
working = record { is_configured = true; deliver = λ _. ok tt }

abbrev pub failures : List (Option Exc) → ℕ
failures [] = 0
failures (none ∷ os) = failures os
failures (some _ ∷ os) = failures os + 1

-- The notice of the first failure, if there was one.
abbrev pub first_failure : List (Option Exc) → List Mail
first_failure [] = []
first_failure (none ∷ os) = first_failure os
first_failure (some e ∷ os) = fail_notification e ∷ []

abbrev pub fresh : ℕ → GroupState
fresh n = record {
  group = some (record { unit_count = n; failed_count = 0; finished_count = 0 });
  mails = [];
}

-- The notices that are still due once `failed` allocations have failed.
abbrev due : ℕ → List (Option Exc) → List Mail
due failed os = if failed == 0 then first_failure os else []

abbrev counting : ℕ → ℕ → ℕ → List Mail → GroupState
counting n failed finished mails = record {
  group = some (record { unit_count = n; failed_count = failed; finished_count = finished });
  mails = mails;
}

abbrev pub closed : List Mail → GroupState
closed mails = record { group = none; mails = mails }
