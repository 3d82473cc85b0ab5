-- ===== src/Service/Lifecycle/Decisions.antt =====
-- What approving and rejecting do to the approval queue.
use auto_heal.Prelude.{
  Bool, Bool-cases, List, Option, Option-cases, String, arith, inl, inr, none, refl, some, ◌≡◌,
}
use auto_heal.Value.{Fields, end, field, obj, str, text_at}
use auto_heal.Executor.Result.{Ended, as_dict, nothing, raised, returned}
use auto_heal.Auth.{get_role_from_api_key, has_permission}
use auto_heal.Approvals.Prune.{Approval, Status, approved, pending, rejected}
use auto_heal.Approvals.{Queue, find, write}
use auto_heal.Approvals.Find.{KeepsId, id-find}
use auto_heal.Approvals.Changes.{
  Change, Decides, IsClosed, approves, fails, rejects, status_at, stays, unchanged, written,
}
use auto_heal.Service.State.{
  Env, Payload, Response, State, answer, config_at, or_text, reply, write_audit_log,
}
use auto_heal.Service.Cool.{cooldown_left, notify}
use auto_heal.Service.Webhook.{no_executable_error}
use auto_heal.Service.Approve.{
  Claim, Guarded, after_guard, barred, claim_entry, claim_of, claim_unless_cooling, guard_entry,
  no_longer_permitted, open_entry, recheck, requester_may, revalidate, set_approved, set_rejected,
  set_result, settle, write_entry,
}
use auto_heal.Service.Approve.FourEyes.{guard_entry-open}
use auto_heal.Service.Reject.{reject_approval, rejection_entry, set_rejected_by}
use auto_heal.Service.Lifecycle.Handlers.{queue-start_cooldown}

-- A write to the entry that the guards have found open
open_write :
    (known : List String) (ok : Bool) (approval_id : String) (entry : Approval) (v : Status)
    (f : Approval → Approval) (q : Queue)
    → find approval_id q.entries ≡ some entry
    → entry.status ≡ pending
    → KeepsId f
    → ((e : Approval) → (f e).status ≡ v)
    → Decides (some pending) (some v)
    → Change ok known q (write ok entry.id f q)
open_write known ok approval_id entry v f q found is_open keeps_id sets decides =
    let same = id-find approval_id q.entries entry found in
    written entry.id f keeps_id
      (λ e h.
        let it : e ≡ entry = ground (arith, same, found, h) in
        rw it (rw (sets entry) (rw is_open decides)))
      refl

module _ (known : List String) (env : Env) (api_key approval_id : String)
    (approver_role : Option String) where
  claim_unless_cooling-Change :
      (c : Claim) (s : State)
      → find approval_id s.queue.entries ≡ some c.entry
      → c.entry.status ≡ pending
      → Change env.disk_ok known s.queue
          (claim_unless_cooling env api_key approver_role c s).1.queue
  unfolding claim_unless_cooling write_entry write_audit_log
  claim_unless_cooling-Change c s found is_open =
      elim (Option-cases (cooldown_left c.action_config c.request.dry_run c.cd_key s)) [
        | inl cool ↦
            rw (cool, claim_unless_cooling)
              (open_write known env.disk_ok approval_id c.entry approved
                (set_approved api_key approver_role) s.queue found is_open (λ e. refl) (λ e. refl)
                approves)
        | inr (remaining, hot) ↦ rw (hot, claim_unless_cooling) (unchanged refl)
      ]

  recheck-Change :
      (entry : Approval) (p : Payload) (config : Option Fields) (name : Option String) (s : State)
      → find approval_id s.queue.entries ≡ some entry
      → entry.status ≡ pending
      → Change env.disk_ok known s.queue
          (recheck env api_key approver_role entry p config name s).1.queue
  unfolding recheck write_entry
  recheck-Change entry p config name s found is_open =
      elim (Bool-cases (requester_may env entry p name)) [
        | inl may ↦ elim (Option-cases config) [
          | inl absent ↦ rw (may, absent, recheck) (unchanged refl)
          | inr (action_config, present) ↦
              rw (may, present, recheck)
                (claim_unless_cooling-Change (claim_of env entry p action_config name) s found
                  is_open)
        ]
        | inr may_not ↦
            rw (may_not, recheck)
              (open_write known env.disk_ok approval_id entry rejected
                (set_rejected no_longer_permitted) s.queue found is_open (λ e. refl) (λ e. refl)
                rejects)
      ]

  revalidate-Change :
      (entry : Approval) (p : Payload) (s : State)
      → find approval_id s.queue.entries ≡ some entry
      → entry.status ≡ pending
      → Change env.disk_ok known s.queue (revalidate env api_key approver_role entry p s).1.queue
  unfolding revalidate
  revalidate-Change entry p s found is_open =
      elim (Option-cases (config_at p.event_type env.actions)) [
        | inl absent ↦ elim (Option-cases (or_text p.controller_override none)) [
          | inl nowhere ↦ rw (absent, nowhere, revalidate) (unchanged refl)
          | inr (name, given) ↦
              rw (absent, given, revalidate)
                (recheck-Change entry p none (some name) s found is_open)
        ]
        | inr (config, present) ↦
            rw (present, revalidate)
              (recheck-Change entry p (some config)
                (or_text p.controller_override (text_at "default_controller" config)) s found
                is_open)
      ]

  after_guard-Change :
      (own : String) (g : Guarded) (s : State)
      → guard_entry own api_key approval_id s ≡ g
      → Change env.disk_ok known s.queue (after_guard env api_key approver_role g s).1.queue
  after_guard-Change own (barred r) s e = unchanged refl
  after_guard-Change own (open_entry entry) s e =
      let (found, is_open, other) = guard_entry-open own api_key approval_id s entry e in
      elim (Option-cases (env.validate entry.payload)) [
        | inl invalid ↦ rw (invalid, after_guard) (unchanged refl)
        | inr (p, valid) ↦ rw (valid, after_guard) (revalidate-Change entry p s found is_open)
      ]

-- The first critical section of approving
pub claim_entry-Change :
    (known : List String) (env : Env) (api_key approval_id : String) (s : State)
    → Change env.disk_ok known s.queue (claim_entry env api_key approval_id s).1.queue
unfolding claim_entry
claim_entry-Change known env api_key approval_id s =
    let role = get_role_from_api_key env.source api_key in
    let own : String = "You cannot approve your own request" in
    elim (Bool-cases (has_permission env.source role "approve_actions")) [
      | inl may ↦
          rw (may, claim_entry)
            (after_guard-Change known env api_key approval_id role own
              (guard_entry own api_key approval_id s) s refl)
      | inr may_not ↦ rw (may_not, claim_entry) (unchanged refl)
    ]

pub reject_approval-Change :
    (known : List String) (env : Env) (api_key approval_id : String) (s : State)
    → Change env.disk_ok known s.queue (reject_approval env api_key approval_id s).1.queue
unfolding reject_approval write_entry write_audit_log
reject_approval-Change known env api_key approval_id s =
    let role = get_role_from_api_key env.source api_key in
    let own : String = "You cannot reject your own request" in
    elim (Bool-cases (has_permission env.source role "approve_actions")) [
      | inl may ↦
          rw (may, reject_approval) (guarded role (guard_entry own api_key approval_id s) refl)
      | inr may_not ↦ rw (may_not, reject_approval) (unchanged refl)
    ]
  where
    guarded :
        (role : Option String) (g : Guarded)
        → guard_entry "You cannot reject your own request" api_key approval_id s ≡ g
        → Change env.disk_ok known s.queue
            (elim g as (λ x. Response × State) [
              | barred r ↦ (r, s)
              | open_entry e ↦ answer (reply 200 (field "status" (str "rejected") end)) (
                  write_audit_log env
                    (rejection_entry e approval_id api_key role)
                    (write_entry env e.id (set_rejected_by api_key role) s))
            ]).1.queue
    guarded role (barred r) e = unchanged refl
    guarded role (open_entry entry) e =
        let (found, is_open, other) =
          guard_entry-open "You cannot reject your own request" api_key approval_id s entry e in
        open_write known env.disk_ok approval_id entry rejected (set_rejected_by api_key role)
          s.queue found is_open (λ e. refl) (λ e. refl) rejects

failing : (v : Status) → IsClosed (some v) → Decides (some v) (some rejected)
failing pending closed = absurd (closed refl)
failing approved closed = fails
failing rejected closed = stays (some rejected)

-- The second critical section of approving, for a claim whose entry no longer waits
pub settle-Change :
    (known : List String) (env : Env) (api_key approval_id : String) (c : Claim)
    (controller_config : Fields) (ended : Ended) (s : State)
    → IsClosed (status_at c.entry.id s.queue)
    → Change env.disk_ok known s.queue
        (settle env api_key approval_id c controller_config (ended, s)).1.queue
unfolding settle write_entry write_audit_log notify
settle-Change known env api_key approval_id c controller_config nothing s closed =
    written c.entry.id (set_rejected no_executable_error) (λ e. refl)
      (λ e h. failing e.status (λ waits. closed (rw h waits))) refl
settle-Change known env api_key approval_id c controller_config (raised e) s closed = unchanged refl
settle-Change known env api_key approval_id c controller_config (returned r) s closed =
    written c.entry.id (set_result (obj (as_dict r))) (λ e. refl) (λ e h. stays (some e.status))
      (rw (queue-start_cooldown env c.action_config c.request.dry_run c.cd_key s) refl)
