-- ===== src/Service/Accounts/Asked.antt =====
-- What a request to /webhook leaves on record.

use auto_heal.RateLimit.{limit_for_action, limit_for_role}
use auto_heal.Prelude.{
  Bool-cases, List, Option, Option-cases, String, String-discrete, ap, inl, inr, none, refl, some,
  sym, ℕ, ℤ, ◌+◌, ◌<>◌, ◌∙◌, ◌≡◌,
}
use auto_heal.Value.{Fields, get, get_or, is_filled, null, put}
use auto_heal.Auth.{get_role_from_api_key}
use auto_heal.Executor.Result.{Ended, nothing, raised, returned}
use auto_heal.Executor.Outside.{Event}
use auto_heal.Executor.Dispatch.{execute_action}
use auto_heal.Executor.Dispatch.Acts.{ActsReturn, execute_action-ActsReturn}
use auto_heal.Service.State.{
  Env, Payload, Response, State, config_at, cooldown_block, cooldown_block_audit_entry, is_on,
  merged_params, rate_limit_block, rate_limit_block_audit_entry,
}
use auto_heal.Service.Cool.{cooldown_key_for, cooldown_left, execute, start_cooldown}
use auto_heal.Service.Webhook.Gates.{authorize-cleared}
use auto_heal.Service.Webhook.{
  Body, Verdict, action_limited, after_gates, authorize, caller_limited, cleared, enqueue,
  finish_run, json, not_json, rate_check, rate_limited, refused, run_entry, run_now, webhook,
}
use auto_heal.Service.Accounts.Entries.{blocked-Accounted, noted-Accounted}
use auto_heal.Service.Accounts.{Accounted, Accounted_from, events-start_cooldown, idle}

module _ (env : Env) (api_key : String) (p : Payload) where
  abbrev role : Option String
  role = get_role_from_api_key env.source api_key

  abbrev Noted : State → Response × State → Type 0
  Noted = Accounted env "execution" api_key api_key

  module _ (config : Fields) (name : String) (controller params : Fields)
      (configured : config_at p.event_type env.actions ≡ some config)
      (known : config_at name env.controllers ≡ some controller) where
    finish_run-Noted :
        (s : State) (now : ℕ) (o : Ended × List Event)
        → execute_action env.world config controller params (is_on p.dry_run) s.events ≡ o
        → ActsReturn s.events o
        → Noted s (
            finish_run env api_key role p config name controller params
              (o.0, record s { events = o.1; now = now }))
    unfolding finish_run get put String-discrete
    finish_run-Noted s now (nothing, events) e (inl (r, returns)) = absurd (cc returns)
    finish_run-Noted s now (nothing, events) e (inr quiet) = idle quiet refl refl refl
    finish_run-Noted s now (raised x, events) e (inl (r, returns)) = absurd (cc returns)
    finish_run-Noted s now (raised x, events) e (inr quiet) = idle quiet refl refl refl
    finish_run-Noted s now (returned r, events) e returns =
        let cd_key = cooldown_key_for env.world config p.event_type name params in
        let s1 : State = record s { events = events; now = now } in
        let after = start_cooldown env config p.dry_run cd_key s1 in
        let entry = run_entry env api_key role p name (get_or "type" null controller) params r in
        let (same_events, same_audit, same_notices) =
          events-start_cooldown env config p.dry_run cd_key s1 in
        noted-Accounted env "execution" api_key api_key s after entry
          record {
            action_config = config;
            controller_config = controller;
            params = params;
            dry_run = is_on p.dry_run;
            result = r;
            executed = e ∙ ap (λ x. (returned r, x)) (sym same_events);
            same_audit = same_audit;
            same_notices = same_notices;
            action = p.event_type;
            controller_name = name;
            configured = configured;
            known = known;
            entry_user = refl;
            entry_unchained = refl;
            entry_result = refl;
            entry_action = refl;
            entry_controller = refl;
            entry_parameters = refl;
          }
          _ refl refl

    run_now-Noted :
        (s : State) → Noted s (run_now env api_key role p config name controller params s)
    unfolding run_now execute get put String-discrete
    run_now-Noted s =
        elim (Option-cases (
          cooldown_left config p.dry_run
            (cooldown_key_for env.world config p.event_type name params) s)) [
              | inl cool ↦
                  let o =
                    execute_action env.world config controller params (is_on p.dry_run) s.events in
                  rw (cool, run_now)
                    (finish_run-Noted s (s.now + env.elapsed) o refl (
                      execute_action-ActsReturn env.world controller config params (is_on p.dry_run)
                        s.events))
              | inr (remaining, hot) ↦
                  let entry =
                    cooldown_block_audit_entry p.event_type name params api_key role p.dry_run in
                  rw (hot, run_now)
                    (blocked-Accounted env "execution" api_key api_key s entry "blocked-by-cooldown"
                      (cooldown_block p.event_type name remaining) (inl refl) refl refl refl)
            ]

  rate_limited-Noted : (r : ℕ) (s : State) → Noted s (rate_limited env api_key role p r s)
  unfolding get put String-discrete
  rate_limited-Noted r s =
      let entry = rate_limit_block_audit_entry p.event_type api_key role p.parameters in
      blocked-Accounted env "execution" api_key api_key s entry "blocked-by-rate-limit"
        (rate_limit_block r) (inr refl) refl refl refl

  after_gates-Noted :
      (raw_payload config : Fields) (v : Verdict) (s : State)
      → config_at p.event_type env.actions ≡ some config
      → authorize env api_key role p config ≡ v
      → Noted s (after_gates env api_key role raw_payload p config v s)
  unfolding after_gates enqueue get String-discrete
  after_gates-Noted raw_payload config (refused code detail) s configured e =
      idle refl refl refl refl
  after_gates-Noted raw_payload config (cleared name controller) s configured e =
      elim (Bool-cases (is_on p.approval_required)) [
        | inl asked ↦ rw (asked, after_gates) (idle refl refl refl refl)
        | inr direct ↦
            rw (direct, after_gates)
              (run_now-Noted config name controller (merged_params config p) configured
                (authorize-cleared env api_key p config name controller e).known s)
      ]

  action_limited-Noted :
      (raw_payload config : Fields) (hint : Option ℕ) (s : State)
      → config_at p.event_type env.actions ≡ some config
      → Noted s (action_limited env api_key role raw_payload p config (hint, s))
  action_limited-Noted raw_payload config none s configured =
      after_gates-Noted raw_payload config (authorize env api_key role p config) s configured refl
  action_limited-Noted raw_payload config (some r) s configured = rate_limited-Noted r s

  -- A check of a rate limit changes nothing that counts here.
  module _ (raw_payload : Fields) where
    checked-Noted :
        (config : Fields) (key : String) (limit : Option ℤ) (s : State)
        → config_at p.event_type env.actions ≡ some config
        → Noted s (action_limited env api_key role raw_payload p config (rate_check key limit s))
    unfolding rate_check
    checked-Noted config key limit s configured =
        let r = rate_check key limit s in
        Accounted_from env "execution" api_key api_key r.1 s
          (action_limited env api_key role raw_payload p config r) refl refl refl
          (action_limited-Noted raw_payload config r.0 r.1 configured)

    caller_limited-Noted :
        (hint : Option ℕ) (s : State)
        → Noted s (caller_limited env api_key role raw_payload p (hint, s))
    unfolding get String-discrete
    caller_limited-Noted (some r) s = rate_limited-Noted r s
    caller_limited-Noted none s = elim (Option-cases (config_at p.event_type env.actions)) [
      | inl absent ↦ rw (absent, caller_limited) (idle refl refl refl refl)
      | inr (config, present) ↦
          rw (present, caller_limited)
            (elim (Bool-cases (is_filled config)) [
              | inr empty ↦ rw (empty, caller_limited) (idle refl refl refl refl)
              | inl filled ↦
                  rw (filled, caller_limited)
                    (checked-Noted config ("action:" <> p.event_type)
                      (limit_for_action env.limits p.event_type) s present)
            ])
    ]

    asked-Noted :
        (key : String) (limit : Option ℤ) (s : State)
        → Noted s (caller_limited env api_key role raw_payload p (rate_check key limit s))
    unfolding rate_check
    asked-Noted key limit s =
        let r = rate_check key limit s in
        Accounted_from env "execution" api_key api_key r.1 s
          (caller_limited env api_key role raw_payload p r) refl refl refl
          (caller_limited-Noted r.0 r.1)

pub webhook-Accounted :
    (env : Env) (api_key : String) (body : Body) (s : State)
    → Accounted env "execution" api_key api_key s (webhook env api_key body s)
unfolding webhook get String-discrete
webhook-Accounted env api_key not_json s = idle refl refl refl refl
webhook-Accounted env api_key (json raw_payload) s =
    elim (Option-cases (env.validate raw_payload)) [
      | inl invalid ↦ rw (invalid, webhook) (idle refl refl refl refl)
      | inr (p, valid) ↦
          let role = get_role_from_api_key env.source api_key in
          rw (valid, webhook)
            (asked-Noted env api_key p raw_payload ("caller:" <> api_key)
              (limit_for_role env.limits role) s)
    ]
