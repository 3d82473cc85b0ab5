-- ===== src/Service/Webhook/Gates.antt =====
-- What a request to /webhook must pass before anything runs.

use auto_heal.Prelude.{
  Bool-cases, Option, Option-cases, String, arith, false, inl, inr, none, refl, some, true, ℕ, ◌<>◌,
  ◌≡◌, ◌⊎◌,
}
use auto_heal.Executor.Result.{Ended, nothing, raised, returned}
use auto_heal.Executor.Dispatch.{execute_action}
use auto_heal.Service.Cool.{cooldown_key_for, cooldown_left, execute, notify, start_cooldown}
use auto_heal.Value.{Fields, is_filled, text_at}
use auto_heal.RateLimit.{limit_for_action, limit_for_role}
use auto_heal.Auth.{
  get_role_from_api_key, has_permission, is_action_allowed_for_key, is_controller_allowed_for_key,
}
use auto_heal.Service.State.{
  Env, Payload, Response, State, config_at, is_on, merged_params, or_text, write_audit_log,
}
use auto_heal.Service.Webhook.{
  Verdict, action_limited, after_gates, authorize, caller_limited, clear_controller, cleared,
  enqueue, finish_run, is_given, json, rate_check, refused, run_now, webhook,
}

-- The two rate limits of a request
abbrev pub caller_check : Env → String → State → Option ℕ × State
caller_check env api_key s =
    rate_check ("caller:" <> api_key)
      (limit_for_role env.limits (get_role_from_api_key env.source api_key)) s

abbrev pub action_check : Env → Payload → State → Option ℕ × State
action_check env p s =
    rate_check ("action:" <> p.event_type) (limit_for_action env.limits p.event_type) s

-- The grounds for running the action of a request on a controller: it is the configured one that the
-- request or else the action chooses, the role may execute actions, the key's scope has the action
-- and the controller, and another controller than the action's own is allowed to the role.
pub record IsCleared (env : Env) (api_key : String) (p : Payload) (action_config : Fields)
    (controller_name : String) (controller_config : Fields) : Type 0 where
  pub chosen :
      or_text p.controller_override (text_at "default_controller" action_config)
      ≡ some controller_name
  pub known : config_at controller_name env.controllers ≡ some controller_config
  pub role_executes :
      has_permission env.source (get_role_from_api_key env.source api_key) "execute_actions" ≡ true
  pub action_in_scope : is_action_allowed_for_key env.source api_key p.event_type ≡ true
  pub controller_in_scope : is_controller_allowed_for_key env.source api_key controller_name ≡ true
  pub override_allowed :
      (is_given p.controller_override ≡ false)
      ⊎ (has_permission env.source (get_role_from_api_key env.source api_key) "controller_override"
          ≡ true)

-- What follows of the controller that the gates clear
clear_controller-cleared :
    (env : Env) (api_key : String) (name : Option String) (controller_name : String)
    (controller_config : Fields)
    → clear_controller env api_key name ≡ cleared controller_name controller_config
    → (name ≡ some controller_name)
      × (config_at controller_name env.controllers ≡ some controller_config)
      × (is_controller_allowed_for_key env.source api_key controller_name ≡ true)
unfolding clear_controller
clear_controller-cleared env api_key none controller_name controller_config h = absurd (cc h)
clear_controller-cleared env api_key (some name) controller_name controller_config h = ground arith

pub authorize-cleared :
    (env : Env) (api_key : String) (p : Payload) (action_config : Fields) (controller_name : String)
    (controller_config : Fields)
    → authorize env api_key (get_role_from_api_key env.source api_key) p action_config
      ≡ cleared controller_name controller_config
    → IsCleared env api_key p action_config controller_name controller_config
unfolding authorize
authorize-cleared env api_key p action_config controller_name controller_config h = ground (
  arith,
  clear_controller-cleared env api_key
      (or_text p.controller_override (text_at "default_controller" action_config)) controller_name
      controller_config,
)

-- An action ran: which one, where and with what is what the request and the configuration say, and
-- every gate let the request through.
pub record Ran (env : Env) (api_key : String) (p : Payload) (s s' : State) : Type 0 where
  pub action_config : Fields
  pub controller_name : String
  pub controller_config : Fields
  pub caller_passes : (caller_check env api_key s).0 ≡ none
  pub configured : config_at p.event_type env.actions ≡ some action_config
  pub action_passes : (action_check env p (caller_check env api_key s).1).0 ≡ none
  pub gates : IsCleared env api_key p action_config controller_name controller_config
  pub unasked : is_on p.approval_required ≡ false
  pub cooled :
      cooldown_left action_config p.dry_run
        (cooldown_key_for env.world action_config p.event_type controller_name
          (merged_params action_config p))
        s
      ≡ none
  pub ran :
      s'.events
      ≡ (execute_action env.world action_config controller_config
          (merged_params action_config p)
          (is_on p.dry_run)
          s.events).1

-- Nothing was asked of the outside, or an action ran as the gates allow.
abbrev pub RunsOnlyCleared : Env → String → Payload → State → State → Type 0
RunsOnlyCleared env api_key p s s' = (s'.events ≡ s.events) ⊎ Ran env api_key p s s'

module _ (env : Env) (api_key : String) (raw_payload : Fields) (p : Payload) where
  abbrev role : Option String
  role = get_role_from_api_key env.source api_key

  events-finish_run :
      (config : Fields) (name : String) (controller params : Fields) (e : Ended) (s : State)
      → (finish_run env api_key role p config name controller params (e, s)).1.events ≡ s.events
  unfolding finish_run notify write_audit_log start_cooldown
  events-finish_run config name controller params nothing s = refl
  events-finish_run config name controller params (raised x) s = refl
  events-finish_run config name controller params (returned r) s = ground arith

  events-run_now :
      (config : Fields) (name : String) (controller params : Fields) (s : State)
      → ((run_now env api_key role p config name controller params s).1.events ≡ s.events)
        ⊎ ((cooldown_left config p.dry_run
                (cooldown_key_for env.world config p.event_type name params)
                s
              ≡ none)
            × ((run_now env api_key role p config name controller params s).1.events
                ≡ (execute_action env.world config controller params (is_on p.dry_run) s.events).1))
  unfolding run_now execute write_audit_log
  events-run_now config name controller params s =
      elim (Option-cases (
        cooldown_left config p.dry_run (cooldown_key_for env.world config p.event_type name params)
          s)) [
            | inr (remaining, hot) ↦ inl (rw (hot, run_now) refl)
            | inl cool ↦
                let r = execute env config controller params p.dry_run s in
                inr (
                  cool,
                  rw (cool, run_now) (events-finish_run config name controller params r.0 r.1),
                )
          ]

  -- From the state after both rate limits on
  module _ (s : State) (caller_passes : (caller_check env api_key s).0 ≡ none)
      (action_config : Fields)
      (configured : config_at p.event_type env.actions ≡ some action_config) where
    abbrev limited : State
    limited = (action_check env p (caller_check env api_key s).1).1

    abbrev Cleared : Response × State → Type 0
    Cleared o = RunsOnlyCleared env api_key p s o.1

    after_gates-RunsOnlyCleared :
        (v : Verdict)
        → (action_check env p (caller_check env api_key s).1).0 ≡ none
        → authorize env api_key role p action_config ≡ v
        → Cleared (after_gates env api_key role raw_payload p action_config v limited)
    unfolding after_gates enqueue rate_check cooldown_left
    after_gates-RunsOnlyCleared (refused code detail) passes e = inl refl
    after_gates-RunsOnlyCleared (cleared name controller_config) passes e =
        elim (Bool-cases (is_on p.approval_required)) [
          | inl asked ↦ inl (rw (asked, after_gates) refl)
          | inr direct ↦
              rw (direct, after_gates)
                (elim (events-run_now action_config name controller_config
                  (merged_params action_config p) limited) [
                    | inl quiet ↦ inl quiet
                    | inr (cool, events) ↦ inr record {
                      action_config = action_config;
                      controller_name = name;
                      controller_config = controller_config;
                      caller_passes = caller_passes;
                      configured = configured;
                      action_passes = passes;
                      gates =
                          authorize-cleared env api_key p action_config name controller_config e;
                      unasked = direct;
                      cooled = cool;
                      ran = events;
                    }
                  ])
        ]

    action_limited-RunsOnlyCleared :
        (hint : Option ℕ)
        → (action_check env p (caller_check env api_key s).1).0 ≡ hint
        → Cleared (action_limited env api_key role raw_payload p action_config (hint, limited))
    unfolding write_audit_log rate_check
    action_limited-RunsOnlyCleared none e =
        after_gates-RunsOnlyCleared (authorize env api_key role p action_config) e refl
    action_limited-RunsOnlyCleared (some r) e = inl refl

  caller_limited-RunsOnlyCleared :
      (s : State) (hint : Option ℕ)
      → (caller_check env api_key s).0 ≡ hint
      → RunsOnlyCleared env api_key p s
          (caller_limited env api_key role raw_payload p (hint, (caller_check env api_key s).1)).1
  unfolding write_audit_log rate_check
  caller_limited-RunsOnlyCleared s (some r) e = inl refl
  caller_limited-RunsOnlyCleared s none e =
      elim (Option-cases (config_at p.event_type env.actions)) [
        | inl unknown ↦ rw (unknown, caller_limited) (inl refl)
        | inr (c, known) ↦
            rw (known, caller_limited)
              (elim (Bool-cases (is_filled c)) [
                | inl filled ↦
                    rw (filled, caller_limited)
                      (action_limited-RunsOnlyCleared s e c known
                        (action_check env p (caller_check env api_key s).1).0 refl)
                | inr empty ↦ rw (empty, caller_limited) (inl refl)
              ])
      ]

-- A valid request to /webhook asks nothing of the outside, or makes the executor run: the action
-- that the request names, as configured, on the configured controller that the request or else the
-- action chooses, with the merged parameters. Then every gate let it through: neither rate limit
-- refused, the role may execute actions, the key's scope has the action and that controller, an
-- override of the controller is permitted, no approval is asked for, and no cooldown is left.
pub webhook-RunsOnlyCleared :
    (env : Env) (api_key : String) (raw_payload : Fields) (p : Payload) (s : State)
    → env.validate raw_payload ≡ some p
    → RunsOnlyCleared env api_key p s (webhook env api_key (json raw_payload) s).1
unfolding webhook
webhook-RunsOnlyCleared env api_key raw_payload p s valid =
    rw (valid, webhook)
      (caller_limited-RunsOnlyCleared env api_key raw_payload p s (caller_check env api_key s).0
        refl)
