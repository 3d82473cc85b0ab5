-- ===== src/Service/Webhook.antt =====
-- `POST /webhook` of src/main.py.
pub mod Gates
pub mod Flapping
use auto_heal.Prelude.{
  Bool, Option, String, false, if◌then◌else◌, none, not, some, ℕ, ℤ, ◌&&◌, ◌<>◌, ◌==◌,
}
use auto_heal.Value.{
  Fields, Value, end, field, get_or, is_filled, null, obj, str, text_at, text_or_null,
}
use auto_heal.RateLimit.{check, limit_for_action, limit_for_role, retry_after, window_ms}
use auto_heal.Auth.{
  get_role_from_api_key, has_permission, is_action_allowed_for_key, is_controller_allowed_for_key,
}
use auto_heal.Approvals.Prune.{Approval, pending}
use auto_heal.Approvals
use auto_heal.Executor.Result.{ActionExecutionResult, Ended, as_dict, nothing, raised, returned}
use auto_heal.Service.State.{
  Env, Payload, Response, State, answer, audit_head, bool_or_null, config_at, cooldown_block,
  cooldown_block_audit_entry, internal_error, is_on, merged_params, or_text, rate_limit_block,
  rate_limit_block_audit_entry, refuse, reply, write_audit_log,
}
use auto_heal.Service.Cool.{cooldown_key_for, cooldown_left, execute, notify, start_cooldown}

-- The request's body: JSON of a dict, or anything else.
pub data Body : Type 0 where
  not_json : Body
  json : Fields → Body

-- Refused with a status code and a detail, or cleared for a controller.
pub data Verdict : Type 0 where
  refused : ℕ → String → Verdict
  cleared : String → Fields → Verdict

unfoldable pub clear_controller : Env → String → Option String → Verdict
clear_controller env api_key none = refused 400 "Unknown controller"
clear_controller env api_key (some name) = elim (config_at name env.controllers) [
  | none ↦ refused 400 "Unknown controller"
  | some controller_config ↦
      if not (is_filled controller_config)
      then refused 400 "Unknown controller"
      else if not (is_controller_allowed_for_key env.source api_key name)
      then refused 403 ("Controller '" <> (name <> "' is not permitted for your API key"))
      else cleared name controller_config
]

-- `bool(controller_override)`
abbrev pub is_given : Option String → Bool
is_given none = false
is_given (some s) = not (s == "")

-- The gates between the rate limits and the parameters, in the code's order.
unfoldable pub authorize : Env → String → Option String → Payload → Fields → Verdict
authorize env api_key role p action_config =
    if not (has_permission env.source role "execute_actions")
    then refused 403 "Executing actions is not permitted for your role"
    else if not (is_action_allowed_for_key env.source api_key p.event_type)
    then refused 403 ("Action '" <> (p.event_type <> "' is not permitted for your API key"))
    else if is_given p.controller_override
        && not (has_permission env.source role "controller_override")
    then refused 403 "Controller override not permitted for your role"
    else clear_controller env api_key
        (or_text p.controller_override (text_at "default_controller" action_config))

abbrev pub new_entry : Env → String → Option String → Fields → String → Approval
new_entry env api_key role raw_payload controller_name = record {
  id = env.new_id;
  payload = raw_payload;
  status = pending;
  result = null;
  requested_by = api_key;
  role = role;
  controller = controller_name;
  approved_by = none;
  approver_role = none;
}

-- The branch that queues the request
unfoldable pub enqueue : Env → Approval → State → Response × State
enqueue env entry s = (
  reply 200 (
      field "approval_id" (str entry.id) (
        field "status" (str "pending")
          (field "detail" (str "Action requires approval before execution.") end))),
  record s { queue = Approvals.append env.disk_ok entry s.queue },
)

abbrev pub no_executable_error : String
no_executable_error = "No playbook, script, command, or kube_action defined for action"

-- The audit entry of a run
abbrev pub run_entry :
    Env
    → String
    → Option String
    → Payload
    → String
    → Value
    → Fields
    → ActionExecutionResult
    → Fields
run_entry env api_key role p controller_name controller_type params r =
    audit_head api_key role (str p.event_type) (str controller_name) controller_type (obj params)
      (as_dict r) (text_or_null env.client_ip) (field "dry_run" (bool_or_null p.dry_run) end)

-- What follows the execution
unfoldable pub finish_run :
    Env
    → String
    → Option String
    → Payload
    → Fields
    → String
    → Fields
    → Fields
    → Ended × State
    → Response × State
finish_run env api_key role p action_config controller_name controller_config params (nothing, s) =
    (refuse 400 no_executable_error, s)
finish_run env api_key role p action_config controller_name controller_config params (raised e, s) =
    (internal_error, s)
finish_run env api_key role p action_config controller_name controller_config params
      (returned r, s) =
    let cd_key = cooldown_key_for env.world action_config p.event_type controller_name params in
    let controller_type = get_or "type" null controller_config in
    let entry = run_entry env api_key role p controller_name controller_type params r in
    answer
      (reply 200 (
        field "action" (str p.event_type) (
          field "controller" (str controller_name) (
            field "parameters" (obj params) (
              field "role" (text_or_null role) (
                field "controller_type" controller_type (
                  field "execution" (obj (as_dict r))
                    (field "dry_run" (bool_or_null p.dry_run) end))))))))
      (notify env p.event_type controller_name api_key r action_config
        (write_audit_log env entry (start_cooldown env action_config p.dry_run cd_key s)))

-- The cooldown check and the execution
unfoldable pub run_now :
    Env
    → String
    → Option String
    → Payload
    → Fields
    → String
    → Fields
    → Fields
    → State
    → Response × State
run_now env api_key role p action_config controller_name controller_config params s =
    elim (cooldown_left action_config p.dry_run
      (cooldown_key_for env.world action_config p.event_type controller_name params) s) [
        | some remaining ↦ answer (cooldown_block p.event_type controller_name remaining) (
            write_audit_log env
              (cooldown_block_audit_entry p.event_type controller_name params api_key role
                p.dry_run)
              s)
        | none ↦
            finish_run env api_key role p action_config controller_name controller_config params
              (execute env action_config controller_config params p.dry_run s)
      ]

-- The request after its gates
unfoldable pub after_gates :
    Env → String → Option String → Fields → Payload → Fields → Verdict → State → Response × State
after_gates env api_key role raw_payload p action_config (refused code detail) s =
    (refuse code detail, s)
after_gates env api_key role raw_payload p action_config (cleared controller_name controller_config)
      s =
    if is_on p.approval_required
    then enqueue env (new_entry env api_key role raw_payload controller_name) s
    else run_now env api_key role p action_config controller_name controller_config
        (merged_params action_config p) s

-- A call of `rate_limiter.check`: the hint, and the state after it
unfoldable pub rate_check : String → Option ℤ → State → Option ℕ × State
rate_check key limit s =
    let (hint, hits) = check key limit window_ms s.now s.hits in (hint, record s { hits = hits })

abbrev pub rate_limited : Env → String → Option String → Payload → ℕ → State → Response × State
rate_limited env api_key role p retry_after s =
    answer (rate_limit_block retry_after)
      (write_audit_log env (rate_limit_block_audit_entry p.event_type api_key role p.parameters) s)

abbrev pub action_limited :
    Env → String → Option String → Fields → Payload → Fields → Option ℕ × State → Response × State
action_limited env api_key role raw_payload p action_config (some retry_after, s) =
    rate_limited env api_key role p retry_after s
action_limited env api_key role raw_payload p action_config (none, s) =
    after_gates env api_key role raw_payload p action_config
      (authorize env api_key role p action_config) s

-- The request after the caller's rate limit
abbrev pub caller_limited :
    Env → String → Option String → Fields → Payload → Option ℕ × State → Response × State
caller_limited env api_key role raw_payload p (some retry_after, s) =
    rate_limited env api_key role p retry_after s
caller_limited env api_key role raw_payload p (none, s) =
    elim (config_at p.event_type env.actions) [
      | none ↦ (refuse 400 "Unknown action/event_type", s)
      | some action_config ↦
          if is_filled action_config
          then action_limited env api_key role raw_payload p action_config
              (rate_check ("action:" <> p.event_type) (limit_for_action env.limits p.event_type) s)
          else (refuse 400 "Unknown action/event_type", s)
    ]

-- `webhook`, for a request that the middleware let through with this key
unfoldable pub webhook : Env → String → Body → State → Response × State
webhook env api_key not_json s = (refuse 400 "Malformed JSON payload", s)
webhook env api_key (json raw_payload) s = elim (env.validate raw_payload) [
  | none ↦ (refuse 400 "Invalid payload", s)
  | some p ↦
      let role = get_role_from_api_key env.source api_key in
      caller_limited env api_key role raw_payload p
        (rate_check ("caller:" <> api_key) (limit_for_role env.limits role) s)
]
