-- ===== src/Service/Accounts/Decided.antt =====
-- What the first critical section of approving leaves on record.

use auto_heal.Prelude.{
  Bool-cases, Option, Option-cases, String, String-discrete, inl, inr, none, refl, some, subst,
  ◌==◌, ◌∙◌, ◌≡◌,
}
use auto_heal.Value.{Fields, get, put, text_at}
use auto_heal.Approvals.{find}
use auto_heal.Approvals.Prune.{Approval, is_pending}
use auto_heal.Service.State.{
  Env, Payload, Response, State, config_at, cooldown_block, cooldown_block_audit_entry, or_text,
}
use auto_heal.Service.Cool.{cooldown_left}
use auto_heal.Service.Approve.{
  Claim, Decision, Guarded, after_guard, answered, barred, claim_of, claim_unless_cooling, claimed,
  guard_entry, open_entry, recheck, requester_may, revalidate, write_entry,
}
use auto_heal.Service.Approve.FourEyes.{guard_entry-open}
use auto_heal.Service.Accounts.Entries.{blocked-Accounted}
use auto_heal.Service.Accounts.{Accounted, content, idle}

-- The key that asked for an approval; the empty text where there is none with that id.
unfoldable pub requester : String → State → String
requester approval_id s = elim (find approval_id s.queue.entries) [
  | none ↦ ""
  | some e ↦ e.requested_by
]

-- The claim's configurations are those of its names.
abbrev pub IsConfigured : Env → Claim → Type 0
IsConfigured env c =
    (config_at c.request.event_type env.actions ≡ some c.action_config)
    × ((controller : Fields)
        → c.controller_config ≡ some controller
        → config_at c.controller_name env.controllers ≡ some controller)

claim_of-IsConfigured :
    (env : Env) (entry : Approval) (p : Payload) (config : Fields) (name : Option String)
    → config_at p.event_type env.actions ≡ some config
    → IsConfigured env (claim_of env entry p config name)
claim_of-IsConfigured env entry p config none configured =
    (configured, λ controller e. absurd (cc e))
claim_of-IsConfigured env entry p config (some name) configured = (configured, λ controller e. e)

module _ (env : Env) (api_key : String) (user : String) where
  abbrev pub Noted : State → Response × State → Type 0
  Noted = Accounted env "result" api_key user

  -- What the first critical section leaves: an answer with its account, or a claim and no trace.
  abbrev pub Decided : State → Decision × State → Type 0
  Decided s (answered r, s') = Noted s (r, s')
  Decided s (claimed c, s') =
      (s'.events ≡ s.events)
      × (s'.audit ≡ s.audit)
      × (s'.notices ≡ s.notices)
      × (c.entry.requested_by ≡ user)
      × IsConfigured env c

  claim_unless_cooling-Decided :
      (approver_role : Option String) (c : Claim) (s : State)
      → c.entry.requested_by ≡ user
      → IsConfigured env c
      → Decided s (claim_unless_cooling env api_key approver_role c s)
  unfolding claim_unless_cooling write_entry get put String-discrete
  claim_unless_cooling-Decided approver_role c s asked configured =
      elim (Option-cases (cooldown_left c.action_config c.request.dry_run c.cd_key s)) [
        | inl cool ↦ rw (cool, claim_unless_cooling) (refl, refl, refl, asked, configured)
        | inr (remaining, hot) ↦
            let entry =
              cooldown_block_audit_entry c.request.event_type c.controller_name c.params api_key
                approver_role c.request.dry_run in
            rw (hot, claim_unless_cooling)
              (blocked-Accounted env "result" api_key user s entry "blocked-by-cooldown"
                (cooldown_block c.request.event_type c.controller_name remaining) (inl refl) refl
                refl refl)
      ]

  recheck-Decided :
      (approver_role : Option String) (entry : Approval) (p : Payload) (config : Option Fields)
      (name : Option String) (s : State)
      → entry.requested_by ≡ user
      → config_at p.event_type env.actions ≡ config
      → Decided s (recheck env api_key approver_role entry p config name s)
  unfolding recheck write_entry get String-discrete
  recheck-Decided approver_role entry p config name s asked configured =
      elim (Bool-cases (requester_may env entry p name)) [
        | inl may ↦ elim (Option-cases config) [
          | inl absent ↦ rw (may, absent, recheck) (idle refl refl refl refl)
          | inr (action_config, present) ↦
              rw (may, present, recheck)
                (claim_unless_cooling-Decided approver_role
                  (claim_of env entry p action_config name) s asked
                  (claim_of-IsConfigured env entry p action_config name (configured ∙ present)))
        ]
        | inr may_not ↦ rw (may_not, recheck) (idle refl refl refl refl)
      ]

  revalidate-Decided :
      (approver_role : Option String) (entry : Approval) (p : Payload) (s : State)
      → entry.requested_by ≡ user
      → Decided s (revalidate env api_key approver_role entry p s)
  unfolding revalidate get String-discrete
  revalidate-Decided approver_role entry p s asked =
      elim (Option-cases (config_at p.event_type env.actions)) [
        | inl absent ↦ elim (Option-cases (or_text p.controller_override none)) [
          | inl nowhere ↦ rw (absent, nowhere, revalidate) (idle refl refl refl refl)
          | inr (name, given) ↦
              rw (absent, given, revalidate)
                (recheck-Decided approver_role entry p none (some name) s asked absent)
        ]
        | inr (config, present) ↦
            rw (present, revalidate)
              (recheck-Decided approver_role entry p (some config)
                (or_text p.controller_override (text_at "default_controller" config)) s asked
                present)
      ]

abbrev Untold : Guarded → Type 0
Untold (barred r) = get "result" (content r) ≡ none
Untold (open_entry e) = Unit

guard_entry-Untold :
    (own api_key approval_id : String) (s : State) → Untold (guard_entry own api_key approval_id s)
unfolding guard_entry get String-discrete
guard_entry-Untold own api_key approval_id s =
    elim (Option-cases (find approval_id s.queue.entries)) [
      | inl absent ↦ rw (absent, guard_entry) refl
      | inr (e, found) ↦
          rw (found, guard_entry)
            (elim (Bool-cases (is_pending e)) [
              | inr over ↦ rw (over, guard_entry) refl
              | inl waits ↦
                  rw (waits, guard_entry)
                    (elim (Bool-cases (e.requested_by == api_key)) [
                      | inl own_request ↦ rw (own_request, guard_entry) refl
                      | inr other ↦ rw (other, guard_entry) tt
                    ])
            ])
    ]

pub after_guard-Decided :
    (env : Env) (own api_key approval_id : String) (role : Option String) (g : Guarded) (s : State)
    → guard_entry own api_key approval_id s ≡ g
    → Decided env api_key (requester approval_id s) s (after_guard env api_key role g s)
unfolding requester get String-discrete
after_guard-Decided env own api_key approval_id role (barred r) s e =
    idle refl refl refl (subst Untold e (guard_entry-Untold own api_key approval_id s))
after_guard-Decided env own api_key approval_id role (open_entry entry) s e =
    let (found, is_open, other) = guard_entry-open own api_key approval_id s entry e in
    elim (Option-cases (env.validate entry.payload)) [
      | inl invalid ↦ rw (invalid, after_guard) (idle refl refl refl refl)
      | inr (p, valid) ↦
          rw (valid, after_guard)
            (revalidate-Decided env api_key (requester approval_id s) role entry p s
              (rw (found, requester) refl))
    ]
