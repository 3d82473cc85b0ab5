-- ===== src/Service/Approve/Once.antt =====
-- What a claim does to the queue.

use auto_heal.Prelude.{Option, Option-cases, String, arith, inl, inr, ◌≡◌}
use auto_heal.Approvals.Prune.{Approval}
use auto_heal.Approvals.{write}
use auto_heal.Auth.{get_role_from_api_key}
use auto_heal.Service.State.{Env, Payload, State}
use auto_heal.Service.Approve.{
  Claim, Guarded, after_guard, barred, claim_entry, claim_unless_cooling, claimed, guard_entry,
  open_entry, recheck, revalidate, set_approved, write_entry,
}
use auto_heal.Service.Approve.FourEyes.{revalidate-claimed}

queue-revalidate :
    (env : Env) (api_key : String) (approver_role : Option String) (e : Approval) (p : Payload)
    (s : State) (c : Claim)
    → (revalidate env api_key approver_role e p s).0 ≡ claimed c
    → (revalidate env api_key approver_role e p s).1.queue
      ≡ write env.disk_ok e.id (set_approved api_key approver_role) s.queue
unfolding revalidate recheck claim_unless_cooling write_entry
queue-revalidate env api_key approver_role e p s c h = ground arith

queue-after_guard :
    (env : Env) (api_key : String) (approver_role : Option String) (g : Guarded) (s : State)
    (c : Claim)
    → (after_guard env api_key approver_role g s).0 ≡ claimed c
    → (after_guard env api_key approver_role g s).1.queue
      ≡ write env.disk_ok c.entry.id (set_approved api_key approver_role) s.queue
queue-after_guard env api_key approver_role (barred r) s c h = cc
queue-after_guard env api_key approver_role (open_entry e) s c h =
    elim (Option-cases (env.validate e.payload)) [
      | inl invalid ↦ absurd (ground arith)
      | inr (p, valid) ↦ ground (
        arith,
        queue-revalidate env api_key approver_role e p s c,
        revalidate-claimed env api_key approver_role e p s c,
      )
    ]

pub queue-claim_entry :
    (env : Env) (api_key approval_id : String) (s : State) (c : Claim)
    → (claim_entry env api_key approval_id s).0 ≡ claimed c
    → (claim_entry env api_key approval_id s).1.queue
      ≡ write env.disk_ok c.entry.id
          (set_approved api_key (get_role_from_api_key env.source api_key))
          s.queue
unfolding claim_entry
queue-claim_entry env api_key approval_id s c h = ground (
  arith,
  queue-after_guard env api_key (get_role_from_api_key env.source api_key)
      (guard_entry "You cannot approve your own request" api_key approval_id s) s c,
)
