-- ===== src/AnsibleStages.antt =====
-- AnsibleStageHandler, AllocationAnsibleStageHandler and CleanupAnsibleStageHandler of
-- crczp/sandbox_instance_app/lib/stage_handlers.py.
pub mod Keeps
use backend_sandbox_service.Prelude.{ℕ, Bool, true, false, Option, none, some}
use backend_sandbox_service.Errors.{
  Done, ansible_error, integrity_error, ok, err, pure, lift, ◌>>=◌, ◌>>◌, when, catch, finally,
  is_docker_not_found,
}
use backend_sandbox_service.Models.{StageClass, user_allocation, user_cleanup}
use backend_sandbox_service.Groups.{on_allocation_end}
use backend_sandbox_service.StageHandler.{
  run_playbook, delete_container, delete_jump_key, World, Action, call, on_group,
}

is_user_allocation : StageClass → Bool
is_user_allocation user_allocation = true
is_user_allocation _ = false

module _ (world : World) where
  -- `Container.objects.create(...)`: one for a stage.
  create_container : ℕ → Action Done
  create_container name s = elim s.entry.container [
    | some _ ↦ (err integrity_error, s)
    | none ↦ (ok tt, record s { entry = record s.entry { container = some name } })
  ]

  report_end : Action Done
  unfolding is_user_allocation
  report_end s = elim (is_user_allocation s.stage.class) [
    | true ↦ when s.has_group (on_group (on_allocation_end world.smtp)) s
    | false ↦ (ok tt, s)
  ]

  watch_container : ℕ → Action Done
  unfolding create_container report_end
  watch_container name = do
    create_container name
    lift world.get_container_outputs
    lift world.check_container_status
    report_end

  check_sandbox : Action Done
  check_sandbox s = elim s.has_sandbox [ true ↦ (ok tt, s) | false ↦ (err ansible_error, s) ]

  -- `AllocationAnsibleStageHandler._execute`
  unfoldable pub run_ansible : Action Done
  unfolding check_sandbox watch_container
  run_ansible = do
    check_sandbox
    lift world.prepare_runner
    name ← call run_playbook world.run_ansible_playbook
    finally (watch_container name) (call (delete_container name) (world.delete_container name))

  -- `CleanupAnsibleStageHandler._execute`
  unfoldable pub cleanup_ansible : StageClass → Action Done
  cleanup_ansible user_cleanup = pure tt
  cleanup_ansible _ = call delete_jump_key world.delete_jump_ssh_key

  remove_container : Option ℕ → Action Done
  remove_container none = pure tt
  remove_container (some name) =
      catch is_docker_not_found
        (do
          call (delete_container name) (world.delete_container name)
          λ s. (ok tt, record s { entry = record s.entry { container = none } }))
        (λ _. pure tt)

  -- `AllocationAnsibleStageHandler._cancel`
  unfoldable pub cancel_ansible : Action Done
  unfolding remove_container
  cancel_ansible s = remove_container s.entry.container s
