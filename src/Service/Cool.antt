-- ===== src/Service/Cool.antt =====
-- The cooldown steps of the handlers of src/main.py, and the report of an executed action.
use auto_heal.Prelude.{
  Bool, Option, String, [], eqb, if◌then◌else◌, none, not, pos_part, some, ℕ, ◌&&◌, ◌*◌, ◌++◌, ◌+◌,
  ◌==◌, ◌∷◌,
}
use auto_heal.Value.{Fields, Value, as_int, get, get_or, null, str, text_at, text_or_null}
use auto_heal.Cooldown.{make_key, record_run, seconds_remaining}
use auto_heal.Executor.Params.{text_of}
use auto_heal.Executor.Result.{ActionExecutionResult, Ended}
use auto_heal.Executor.Dispatch.{execute_action}
use auto_heal.Executor.Outside.{World}
use auto_heal.Service.State.{Env, Notice, State, is_on}

-- `action_config.get("cooldown_seconds", 0)`, in milliseconds; a negative one reads as 0
abbrev pub cooldown_ms : Fields → ℕ
cooldown_ms action_config = elim (as_int (get_or "cooldown_seconds" null action_config)) [
  | none ↦ 0
  | some seconds ↦ pos_part seconds * 1000
]

abbrev dedup_text : World → Option Value → Option String
dedup_text w none = none
dedup_text w (some null) = none
dedup_text w (some v) = some (text_of w v)

-- `cooldown_key_for`
unfoldable pub cooldown_key_for : World → Fields → String → String → Fields → String
cooldown_key_for w action_config event_type controller_name params =
    make_key event_type controller_name (elim (text_at "cooldown_key_param" action_config) [
      | none ↦ none
      | some param ↦ if param == "" then none else dedup_text w (get param params)
    ])

-- `not dry_run and cooldown_seconds`
abbrev pub cools : Fields → Option Bool → Bool
cools action_config dry_run = not (is_on dry_run) && not (eqb (cooldown_ms action_config) 0)

-- The time left, if the handler is to refuse
unfoldable pub cooldown_left : Fields → Option Bool → String → State → Option ℕ
cooldown_left action_config dry_run cd_key s =
    if cools action_config dry_run
    then seconds_remaining cd_key (cooldown_ms action_config) s.now s.tracker
    else none

-- `execute_action`, which takes its time
unfoldable pub execute : Env → Fields → Fields → Fields → Option Bool → State → Ended × State
execute env action_config controller_config params dry_run s =
    let (ended, events) =
      execute_action env.world action_config controller_config params (is_on dry_run) s.events in
    (ended, record s { events = events; now = s.now + env.elapsed })

-- `cooldown_tracker.record(cd_key)`, after a real run
unfoldable pub start_cooldown : Env → Fields → Option Bool → String → State → State
start_cooldown env action_config dry_run cd_key s =
    if cools action_config dry_run
    then record s { tracker = record_run cd_key s.now env.disk_ok s.tracker }
    else s

-- `exec_result.as_dict().get("stdout") or exec_result.as_dict().get("error")`
abbrev details_of : ActionExecutionResult → Value
details_of r = if r.stdout == "" then text_or_null r.error else str r.stdout

-- `notification_sender.notify(...)`
abbrev pub notice_of : String → String → String → ActionExecutionResult → Fields → Notice
notice_of event_type controller_name user r action_config = record {
  action = event_type;
  controller = controller_name;
  user = user;
  status = if r.success then "success" else "failure";
  details = details_of r;
  severity = text_at "severity" action_config;
}

-- The call of `notify`, which comes only if what was before it returned
unfoldable pub notify :
    Env → String → String → String → ActionExecutionResult → Fields → Bool × State → Bool × State
notify env event_type controller_name user r action_config o =
    let n = notice_of event_type controller_name user r action_config in
    (
      o.0 && env.notify_ok n,
      record o.1 { notices = if o.0 then o.1.notices ++ n ∷ [] else o.1.notices },
    )
