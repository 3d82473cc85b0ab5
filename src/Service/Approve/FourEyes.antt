-- ===== src/Service/Approve/FourEyes.antt =====
-- Who can approve what, and what approving then runs.

use auto_heal.Prelude.{
  Option, Option-cases, String, arith, inl, inr, refl, some, sym, true, ◌∙◌, ◌≡◌, ◌≢◌, ◌⊎◌,
}
use auto_heal.Auth.{get_role_from_api_key, has_permission, is_action_allowed_for_key}
use auto_heal.Approvals.Prune.{Approval, pending}
use auto_heal.Approvals.{find}
use auto_heal.Service.State.{Env, Payload, State, write_audit_log}
use auto_heal.Service.Approve.{
  Claim, Decision, Guarded, after_claim, after_guard, answered, approve_approval, barred,
  claim_entry, claim_unless_cooling, claimed, guard_entry, open_entry, recheck, revalidate,
  write_entry,
}

-- The grounds for claiming an entry: it is in the queue and pending, the approver's role may
-- approve, the approver is not the requester, and the requester may still do what it asked for.
pub record IsApprovable (env : Env) (api_key approval_id : String) (s : State) (e : Approval)
    : Type 0 where
  pub found : find approval_id s.queue.entries ≡ some e
  pub is_open : e.status ≡ pending
  pub approver_may :
      has_permission env.source (get_role_from_api_key env.source api_key) "approve_actions" ≡ true
  pub other_person : e.requested_by ≢ api_key
  pub requester_executes : has_permission env.source e.role "execute_actions" ≡ true
  pub request : Payload
  pub valid : env.validate e.payload ≡ some request
  pub action_in_scope :
      is_action_allowed_for_key env.source e.requested_by request.event_type ≡ true

pub guard_entry-open :
    (own api_key approval_id : String) (s : State) (e : Approval)
    → guard_entry own api_key approval_id s ≡ open_entry e
    → (find approval_id s.queue.entries ≡ some e)
      × (e.status ≡ pending)
      × (e.requested_by ≢ api_key)
unfolding guard_entry
guard_entry-open own api_key approval_id s e h = ground arith

pub revalidate-claimed :
    (env : Env) (api_key : String) (approver_role : Option String) (e : Approval) (p : Payload)
    (s : State) (c : Claim)
    → (revalidate env api_key approver_role e p s).0 ≡ claimed c
    → (c.entry ≡ e)
      × (has_permission env.source e.role "execute_actions" ≡ true)
      × (is_action_allowed_for_key env.source e.requested_by p.event_type ≡ true)
unfolding revalidate recheck claim_unless_cooling
revalidate-claimed env api_key approver_role e p s c h = ground arith

module _ (env : Env) (api_key approval_id : String) (s : State) (c : Claim) where
  abbrev approver : Option String
  approver = get_role_from_api_key env.source api_key

  after_guard-claimed :
      (g : Guarded)
      → guard_entry "You cannot approve your own request" api_key approval_id s ≡ g
      → has_permission env.source approver "approve_actions" ≡ true
      → (after_guard env api_key approver g s).0 ≡ claimed c
      → IsApprovable env api_key approval_id s c.entry
  after_guard-claimed (barred r) e may h = cc
  after_guard-claimed (open_entry entry) e may h =
      elim (Option-cases (env.validate entry.payload)) [
        | inl invalid ↦ absurd (ground arith)
        | inr (p, valid) ↦
            let (found, is_open, other) =
              guard_entry-open "You cannot approve your own request" api_key approval_id s entry
                e in
            let ran : (after_guard env api_key approver (open_entry entry) s).0
                ≡ (revalidate env api_key approver entry p s).0 =
              rw (valid, after_guard) refl in
            let (same, executes, in_scope) =
              revalidate-claimed env api_key approver entry p s c (sym ran ∙ h) in
            rw same record {
              found = found;
              is_open = is_open;
              approver_may = may;
              other_person = other;
              requester_executes = executes;
              request = p;
              valid = valid;
              action_in_scope = in_scope;
            }
      ]

-- An entry is claimed only on these grounds: it is pending and found by the id, the approver's
-- role may approve, the approver is not the requester, and the requester's role may execute and
-- its key's scope has the action.
pub claim_entry-claimed :
    (env : Env) (api_key approval_id : String) (s : State) (c : Claim)
    → (claim_entry env api_key approval_id s).0 ≡ claimed c
    → IsApprovable env api_key approval_id s c.entry
unfolding claim_entry
claim_entry-claimed env api_key approval_id s c h = ground (
  arith,
  after_guard-claimed env api_key approval_id s c
      (guard_entry "You cannot approve your own request" api_key approval_id s) refl,
)

-- Nothing runs in the first critical section.
events-revalidate :
    (env : Env) (api_key : String) (approver_role : Option String) (e : Approval) (p : Payload)
    (s : State)
    → (revalidate env api_key approver_role e p s).1.events ≡ s.events
unfolding revalidate recheck claim_unless_cooling write_entry write_audit_log
events-revalidate env api_key approver_role e p s = ground arith

events-after_guard :
    (env : Env) (api_key : String) (approver_role : Option String) (g : Guarded) (s : State)
    → (after_guard env api_key approver_role g s).1.events ≡ s.events
events-after_guard env api_key approver_role (barred r) s = refl
events-after_guard env api_key approver_role (open_entry e) s =
    elim (Option-cases (env.validate e.payload)) [
      | inl invalid ↦ rw (invalid, after_guard)
      | inr (p, valid) ↦ rw (valid, after_guard) (events-revalidate env api_key approver_role e p s)
    ]

events-claim_entry :
    (env : Env) (api_key approval_id : String) (s : State)
    → (claim_entry env api_key approval_id s).1.events ≡ s.events
unfolding claim_entry
events-claim_entry env api_key approval_id s = ground (
  arith,
  events-after_guard env api_key (get_role_from_api_key env.source api_key)
      (guard_entry "You cannot approve your own request" api_key approval_id s) s,
)

-- Nothing was asked of the outside, or the entry could be approved by this key.
abbrev pub RunsOnlyApprovable : Env → String → String → State → State → Type 0
RunsOnlyApprovable env api_key approval_id s s' =
    (s'.events ≡ s.events) ⊎ ((e : Approval) × IsApprovable env api_key approval_id s e)

after_claim-RunsOnlyApprovable :
    (env : Env) (api_key approval_id : String) (s : State) (d : Decision) (s' : State)
    → claim_entry env api_key approval_id s ≡ (d, s')
    → RunsOnlyApprovable env api_key approval_id s (after_claim env api_key approval_id (d, s')).1
after_claim-RunsOnlyApprovable env api_key approval_id s (answered r) s' e =
    inl (cc (events-claim_entry env api_key approval_id s, e))
after_claim-RunsOnlyApprovable env api_key approval_id s (claimed c) s' e =
    inr (c.entry, claim_entry-claimed env api_key approval_id s c (cc e))

-- Approving makes the program act on the outside only for a pending entry with that id, under a
-- key whose role may approve and that did not make the request itself, while the role that made
-- it may still execute actions and its key's scope still has the action.
pub approve_approval-RunsOnlyApprovable :
    (env : Env) (api_key approval_id : String) (s : State)
    → RunsOnlyApprovable env api_key approval_id s (approve_approval env api_key approval_id s).1
unfolding approve_approval
approve_approval-RunsOnlyApprovable env api_key approval_id s =
    let r = claim_entry env api_key approval_id s in
    after_claim-RunsOnlyApprovable env api_key approval_id s r.0 r.1 refl
