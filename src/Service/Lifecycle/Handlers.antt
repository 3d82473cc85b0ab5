-- ===== src/Service/Lifecycle/Handlers.antt =====
-- What a request to /webhook does to the approval queue.

use auto_heal.Prelude.{
  Bool, Bool-cases, List, Option, Option-cases, String, arith, contains, false, inl, inr, none,
  refl, some, ℕ, ◌<>◌, ◌≡◌,
}
use auto_heal.Value.{Fields, is_filled}
use auto_heal.Executor.Result.{Ended, nothing, raised, returned}
use auto_heal.RateLimit.{limit_for_action, limit_for_role}
use auto_heal.Auth.{get_role_from_api_key}
use auto_heal.Approvals.{find}
use auto_heal.Approvals.Changes.{Change, queued, unchanged}
use auto_heal.Service.State.{Env, Payload, State, config_at, is_on, merged_params, write_audit_log}
use auto_heal.Service.Cool.{execute, notify, start_cooldown}
use auto_heal.Service.Webhook.{
  Body, Verdict, action_limited, after_gates, authorize, caller_limited, cleared, enqueue,
  finish_run, json, new_entry, not_json, rate_check, refused, run_now, webhook,
}

pub queue-start_cooldown :
    (env : Env) (config : Fields) (dry_run : Option Bool) (key : String) (s : State)
    → (start_cooldown env config dry_run key s).queue ≡ s.queue
unfolding start_cooldown
queue-start_cooldown env config dry_run key s = ground arith

queue-finish_run :
    (env : Env) (api_key : String) (role : Option String) (p : Payload) (action_config : Fields)
    (name : String) (controller_config params : Fields) (ended : Ended) (s : State)
    → (finish_run env api_key role p action_config name controller_config params (ended, s)).1.queue
      ≡ s.queue
unfolding finish_run notify write_audit_log start_cooldown
queue-finish_run env api_key role p action_config name controller_config params nothing s = refl
queue-finish_run env api_key role p action_config name controller_config params (raised e) s = refl
queue-finish_run env api_key role p action_config name controller_config params (returned r) s =
    ground arith

queue-run_now :
    (env : Env) (api_key : String) (role : Option String) (p : Payload) (action_config : Fields)
    (name : String) (controller_config params : Fields) (s : State)
    → (run_now env api_key role p action_config name controller_config params s).1.queue ≡ s.queue
unfolding run_now execute write_audit_log
queue-run_now env api_key role p action_config name controller_config params s =
    let r = execute env action_config controller_config params p.dry_run s in
    ground (
      arith,
      queue-finish_run env api_key role p action_config name controller_config params r.0 r.1,
    )

module _ (known : List String) (env : Env) (api_key : String) (raw_payload : Fields)
    (p : Payload) where
  abbrev role : Option String
  role = get_role_from_api_key env.source api_key

  abbrev Queues : State → State → Type 0
  Queues s s' =
      find env.new_id s.queue.entries ≡ none
      → contains env.new_id known ≡ false
      → Change env.disk_ok known s.queue s'.queue

  after_gates-Queues :
      (action_config : Fields) (v : Verdict) (s : State)
      → Queues s (after_gates env api_key role raw_payload p action_config v s).1
  unfolding after_gates enqueue
  after_gates-Queues action_config (refused code detail) s new unknown = unchanged refl
  after_gates-Queues action_config (cleared name controller_config) s new unknown =
      elim (Bool-cases (is_on p.approval_required)) [
        | inl asked ↦
            rw (asked, after_gates)
              (queued (new_entry env api_key role raw_payload name) refl new unknown refl)
        | inr direct ↦
            rw (direct, after_gates)
              (unchanged (
                queue-run_now env api_key role p action_config name controller_config
                  (merged_params action_config p) s))
      ]

  action_limited-Queues :
      (action_config : Fields) (hint : Option ℕ) (s : State)
      → Queues s (action_limited env api_key role raw_payload p action_config (hint, s)).1
  unfolding write_audit_log
  action_limited-Queues action_config none s new unknown =
      after_gates-Queues action_config (authorize env api_key role p action_config) s new unknown
  action_limited-Queues action_config (some r) s new unknown = unchanged refl

  caller_limited-Queues :
      (hint : Option ℕ) (s : State)
      → Queues s (caller_limited env api_key role raw_payload p (hint, s)).1
  unfolding write_audit_log rate_check
  caller_limited-Queues (some r) s new unknown = unchanged refl
  caller_limited-Queues none s new unknown =
      elim (Option-cases (config_at p.event_type env.actions)) [
        | inl absent ↦ rw (absent, caller_limited) (unchanged refl)
        | inr (c, present) ↦
            rw (present, caller_limited)
              (elim (Bool-cases (is_filled c)) [
                | inl filled ↦
                    let r =
                      rate_check ("action:" <> p.event_type)
                        (limit_for_action env.limits p.event_type) s in
                    rw (filled, caller_limited) (action_limited-Queues c r.0 r.1 new unknown)
                | inr empty ↦ rw (empty, caller_limited) (unchanged refl)
              ])
      ]

pub webhook-Change :
    (known : List String) (env : Env) (api_key : String) (body : Body) (s : State)
    → find env.new_id s.queue.entries ≡ none
    → contains env.new_id known ≡ false
    → Change env.disk_ok known s.queue (webhook env api_key body s).1.queue
unfolding webhook rate_check
webhook-Change known env api_key not_json s new unknown = unchanged refl
webhook-Change known env api_key (json raw_payload) s new unknown =
    elim (Option-cases (env.validate raw_payload)) [
      | inl invalid ↦ rw (invalid, webhook) (unchanged refl)
      | inr (p, valid) ↦
          let role = get_role_from_api_key env.source api_key in
          let r = rate_check ("caller:" <> api_key) (limit_for_role env.limits role) s in
          rw (valid, webhook)
            (caller_limited-Queues known env api_key raw_payload p r.0 r.1 new unknown)
    ]
