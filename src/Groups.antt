-- ===== src/Groups.antt =====
-- SandboxRequestGroup of crczp/sandbox_instance_app/models.py and `send_email` of
-- lib/email_notifications.py: the progress of the allocations that were created together, and the
-- mails about it. Callbacks of `transaction.on_commit` run in their order once the row is saved,
-- and the first that raises ends them.
pub mod Notices
use backend_sandbox_service.Prelude.{
  ℕ, ◌+◌, ◌-◌, Bool, Option, none, some, List, [], ◌∷◌, ◌++◌, ◌==◌, if◌then◌else◌,
}
use backend_sandbox_service.Errors.{
  Done, Exc, Result, ok, err, Exec, ◌>>=◌, ◌>>◌, require, modify, when,
}

pub record Group : Type 0 where
  pub unit_count : ℕ
  pub failed_count : ℕ
  pub finished_count : ℕ

pub data Mail : Type 0 where
  fail_notification : Exc → Mail
  summary_notification : (successful failed : ℕ) → Mail

-- The SMTP server: whether one is configured, and what sending a mail through it does.
pub record Smtp : Type 0 where
  pub is_configured : Bool
  pub deliver : Mail → Result Done

-- The row of the group, if it is still there, and the mails that were sent, the latest last.
pub record GroupState : Type 0 where
  pub group : Option Group
  pub mails : List Mail

module _ (smtp : Smtp) where
  sent : Mail → Result Done → Exec GroupState Done
  sent mail (ok _) s = (ok tt, record s { mails = s.mails ++ mail ∷ [] })
  sent mail (err e) s = (err e, s)

  send_email : Mail → Exec GroupState Done
  unfolding sent
  send_email mail s = if smtp.is_configured then sent mail (smtp.deliver mail) s else (ok tt, s)

  send_fail_notification : Exc → Exec GroupState Done
  unfolding send_email
  send_fail_notification exc = send_email (fail_notification exc)

  -- `finally: self.delete()`
  send_summary_notification : Group → Exec GroupState Done
  unfolding send_email
  send_summary_notification g s =
      let (r, s') =
        send_email (summary_notification (g.finished_count - g.failed_count) g.failed_count) s in
      (r, record s' { group = none })

  unfoldable pub on_allocation_fail : Exc → Exec GroupState Done
  unfolding send_fail_notification send_summary_notification
  on_allocation_fail exc = do
    old ← require (λ s. s.group)
    let g = record old {
      failed_count = old.failed_count + 1;
      finished_count = old.finished_count + 1;
    }
    modify (λ s. record s { group = some g })
    when (old.failed_count == 0) (send_fail_notification exc)
    when (g.finished_count == g.unit_count) (send_summary_notification g)

  unfoldable pub on_allocation_end : Exec GroupState Done
  unfolding send_summary_notification
  on_allocation_end = do
    old ← require (λ s. s.group)
    let g = record old { finished_count = old.finished_count + 1 }
    modify (λ s. record s { group = some g })
    when (g.finished_count == g.unit_count) (send_summary_notification g)

  -- How one allocation of the group came out: by a failed stage, or by the end of its last stage.
  unfoldable pub report : Option Exc → Exec GroupState Done
  report none = on_allocation_end
  report (some exc) = on_allocation_fail exc

  -- The allocations of a group report one after the other, each in a job of its own.
  unfoldable pub report_all : List (Option Exc) → GroupState → GroupState
  report_all [] s = s
  report_all (o ∷ outcomes) s = report_all outcomes (report o s).1
