-- ===== src/AnsibleStages/Keeps.antt =====
-- The Ansible handlers' bodies leave the stage object alone.
use backend_sandbox_service.Prelude.{ℕ, Option, none, some, arith}
use backend_sandbox_service.Models.{StageClass, user_cleanup}
use backend_sandbox_service.StageHandler.{World}
use backend_sandbox_service.StageHandler.Keeps.{KeepsStage, keeps_rules}
use backend_sandbox_service.AnsibleStages.{
  create_container, check_sandbox, report_end, watch_container, run_ansible, cleanup_ansible,
  remove_container, cancel_ansible,
}

module _ (world : World) where
  Keeps-create_container : (name : ℕ) → KeepsStage (create_container world name)
  unfolding create_container
  Keeps-create_container name = record { at = λ s. ground arith }

  Keeps-report_end : KeepsStage (report_end world)
  unfolding report_end
  Keeps-report_end = record { at = λ s. ground arith }

  Keeps-watch_container : (name : ℕ) → KeepsStage (watch_container world name)
  unfolding watch_container
  Keeps-watch_container name = search (keeps_rules, Keeps-create_container, Keeps-report_end)

  Keeps-check_sandbox : KeepsStage (check_sandbox world)
  unfolding check_sandbox
  Keeps-check_sandbox = record { at = λ s. ground arith }

  pub Keeps-run_ansible : KeepsStage (run_ansible world)
  unfolding run_ansible
  Keeps-run_ansible = search (keeps_rules, Keeps-check_sandbox, Keeps-watch_container) depth 8

  pub Keeps-cleanup_ansible : (class : StageClass) → KeepsStage (cleanup_ansible world class)
  unfolding cleanup_ansible
  Keeps-cleanup_ansible user_cleanup = search keeps_rules
  Keeps-cleanup_ansible _ = search keeps_rules

  Keeps-remove_container : (c : Option ℕ) → KeepsStage (remove_container world c)
  unfolding remove_container
  Keeps-remove_container none = search keeps_rules
  Keeps-remove_container (some name) = record { at = λ s. ground arith }

  pub Keeps-cancel_ansible : KeepsStage (cancel_ansible world)
  unfolding cancel_ansible
  Keeps-cancel_ansible = record { at = λ s. (Keeps-remove_container s.entry.container).at s }
