-- ===== src/Executor/Dispatch.antt =====
-- `is_local_controller` and `execute_action` of src/main.py, which choose the executor's method.
pub mod DryRun
pub mod Acts
pub mod Cleanup
use auto_heal.Prelude.{
  Bool, List, Option, String, false, if◌then◌else◌, none, not, some, true, ◌==◌, ◌||◌,
}
use auto_heal.Value.{Fields, Value, get_or, has, is_filled, null, str, text_at}
use auto_heal.Executor.Outside.{Event, World}
use auto_heal.Executor.Result.{Ended, failure, nothing, returned}
use auto_heal.Executor.Params.{same, text_values}
use auto_heal.Executor.Local.{run_command, run_playbook, run_script}
use auto_heal.Executor.Remote.{run_remote}
use auto_heal.Executor.Kube.{run_kube_action}

-- `host in (None, "", "localhost", "127.0.0.1")`
abbrev is_here : Value → Bool
is_here null = true
is_here (str host) = host == "" || host == "localhost" || host == "127.0.0.1"
is_here _ = false

abbrev pub is_text : String → Option String → Bool
is_text s none = false
is_text s (some t) = t == s

-- `is_local_controller`
unfoldable pub is_local_controller : Fields → Bool
is_local_controller controller_config =
    if is_text "local" (text_at "type" controller_config)
    then true
    else is_here (get_or "host" null controller_config)

-- A path that is no text: a dry run prints it, and otherwise the list of arguments is refused
-- (`except Exception`).
abbrev pub with_path :
    World
    → Value
    → Bool
    → (String → List Event → Ended × List Event)
    → List Event
    → Ended × List Event
with_path w (str path) dry_run k events = k path events
with_path w v dry_run k events =
    if dry_run then k (w.repr v) events else (returned (failure "expected str"), events)

-- `[str(v) for v in params.values()] if params else None`
abbrev pub script_args : World → Fields → Option (List String)
script_args w params = if is_filled params then some (text_values w same params) else none

-- The local branch of `execute_action`
abbrev pub run_here : World → Fields → Fields → Bool → List Event → Ended × List Event
run_here w action_config params dry_run events =
    if has "playbook" action_config
    then with_path w (get_or "playbook" null action_config) dry_run
        (λ path. run_playbook w path params dry_run) events
    else if has "script" action_config
    then with_path w (get_or "script" null action_config) dry_run
        (λ path. run_script w path (script_args w params) dry_run) events
    else if has "command" action_config
    then run_command w (get_or "command" null action_config) params dry_run events
    else (nothing, events)

-- `execute_action`
unfoldable pub execute_action :
    World → Fields → Fields → Fields → Bool → List Event → Ended × List Event
execute_action w action_config controller_config params dry_run events =
    if is_text "kubeapi" (text_at "type" controller_config)
    then run_kube_action w controller_config action_config params dry_run events
    else if not (is_local_controller controller_config)
    then run_remote w controller_config action_config params dry_run events
    else run_here w action_config params dry_run events
