-- ===== src/Service/Recorded/Tests.antt =====
-- The health check of Service/Tests.antt, from the request to the log file.

use auto_heal.Prelude.{String, String-discrete, [], none, refl, some, true, ◌∷◌, ◌≡◌}
use auto_heal.Value.{Fields, Value, bool, end, field, get, obj, str, update}
use auto_heal.Vault.Reference.{unavailable}
use auto_heal.Audit.{finalized}
use auto_heal.Audit.Rotate.{maybe_rotate, should_rotate, written}
use auto_heal.Audit.Rotate.Reach.{Reach, Reach-IsIntact, nothing_yet}
use auto_heal.Audit.Ship.{Shipper, Sinks, ship}
use auto_heal.Audit.Tests.{disk, toy_hash}
use auto_heal.Executor.Result.{as_dict, local_result}
use auto_heal.Service.State.{
  Env, Response, State, audit_entry, config_at, merged_params, write_audit_log,
}
use auto_heal.Service.Webhook.{
  Body, after_gates, authorize, clear_controller, finish_run, json, rate_check, run_entry, run_now,
  webhook,
}
use auto_heal.Service.Accounts.{content}
use auto_heal.Service.Recorded.{append_and_ship, record_all}
use auto_heal.Service.Recorded.Laws.{Filed, webhook-Filed}
use auto_heal.RateLimit.{check, limit_for_action, limit_for_role}
use auto_heal.RateLimit.Deque.{recorded}
use auto_heal.Dict.{lookup}
use auto_heal.Cooldown.{make_key, seconds_remaining}
use auto_heal.Auth.{
  get_key_scope, get_role_from_api_key, has_permission, is_action_allowed_for_key,
  is_controller_allowed_for_key, normalize_key_entry, resolve_api_keys,
}
use auto_heal.Executor.Dispatch.{execute_action, is_local_controller}
use auto_heal.Executor.Local.{run_local, run_script}
use auto_heal.Service.Cool.{cooldown_key_for, cooldown_left, execute, notify, start_cooldown}
use auto_heal.Service.Tests.{asked, env, health, ok}
use auto_heal.Service.Tests

asks : Env → String → Body → State → Response × State
unfolding webhook get rate_check check limit_for_role get_role_from_api_key normalize_key_entry
    resolve_api_keys String-discrete recorded lookup config_at limit_for_action after_gates
    authorize has_permission is_action_allowed_for_key clear_controller
    is_controller_allowed_for_key get_key_scope run_now cooldown_left cooldown_key_for make_key
    seconds_remaining merged_params auto_heal.Value.update execute execute_action
    is_local_controller run_script run_local local_result finish_run as_dict notify write_audit_log
    start_cooldown
asks = webhook

abbrev handled : Response × State
handled = webhook env "operator-key" (json asked.payload) Tests.start

abbrev health_entry : Fields
health_entry =
    audit_entry env 6000
      (run_entry env "operator-key" (some "operator") health "local" (str "local") end ok)

told : get "execution" (content handled.0) ≡ some (obj (as_dict ok))
unfolding asks
told = refl

audited : handled.1.audit ≡ health_entry ∷ []
unfolding asks
audited = refl

abbrev sinks : Sinks
sinks = record {
  connects = λ log key. true;
  get_secret = λ path. unavailable "no Vault";
  repr = λ v. "?";
}

abbrev syslog : Fields
syslog = field "shipping" (obj (field "syslog" (obj (field "enabled" (bool true) end)) end)) end

abbrev idle_shipper : Shipper
idle_shipper = record { handler = none; log = [] }

webhook-Filed_example :
    Filed toy_hash disk end sinks syslog "operator-key"
      (obj (as_dict ok))
      idle_shipper
      (written toy_hash disk health_entry nothing_yet)
      (ship sinks syslog (finalized toy_hash health_entry []) idle_shipper)
unfolding record_all append_and_ship maybe_rotate should_rotate
webhook-Filed_example =
    webhook-Filed toy_hash disk end sinks syslog env "operator-key" (json asked.payload) Tests.start
      (obj (as_dict ok)) (health_entry ∷ []) nothing_yet
      (written toy_hash disk health_entry nothing_yet) idle_shipper
      (ship sinks syslog (finalized toy_hash health_entry []) idle_shipper) told audited refl
      (Reach-IsIntact toy_hash end Reach.start)
