-- ===== src/Executor/Local.antt =====
-- `run_playbook`, `run_script` and `run_command` of src/executor.py.
use auto_heal.Prelude.{Bool, List, Option, String, [], if◌then◌else◌, none, some, ◌++◌, ◌<>◌, ◌∷◌}
use auto_heal.Value.{Fields, Items, Value, arr, cons, end, field, nil, null, obj, str}
use auto_heal.Executor.Outside.{Event, World, ran}
use auto_heal.Executor.Result.{Ended, failure, local_result, raised, returned, simulated}
use auto_heal.Executor.Params.{format_value, same, text_of, text_params}
use auto_heal.Executor.Shell.{join_words, split}
use auto_heal.Executor.Format.{Formatted}

-- `subprocess.run(cmd, ...)` and what is made of its end
unfoldable pub run_local : World → List String → List Event → Ended × List Event
run_local w cmd events = (returned (local_result (w.run events cmd)), events ++ ran cmd ∷ [])

-- `f"{k}='{v}'"`
unfoldable pub assignments : World → Fields → List String
assignments w end = []
assignments w (field k v rest) = (k <> ("='" <> (text_of w v <> "'"))) ∷ assignments w rest

abbrev playbook_command : World → String → Fields → List String
playbook_command w playbook_path end = "ansible-playbook" ∷ playbook_path ∷ []
playbook_command w playbook_path extra_vars =
    "ansible-playbook" ∷ playbook_path ∷ "--extra-vars" ∷ join_words (assignments w extra_vars) ∷ []

unfoldable pub run_playbook : World → String → Fields → Bool → List Event → Ended × List Event
run_playbook w playbook_path extra_vars dry_run events =
    if dry_run
    then (
      returned (
          simulated (
            "[DRY-RUN] Would execute playbook: "
            <> (playbook_path <> (" with vars: " <> w.repr (obj extra_vars))))),
      events,
    )
    else run_local w (playbook_command w playbook_path extra_vars) events

abbrev list_of : Option (List String) → List String
list_of none = []
list_of (some args) = args

abbrev items_of : List String → Items
items_of [] = nil
items_of (s ∷ ss) = cons (str s) (items_of ss)

abbrev repr_args : World → Option (List String) → String
repr_args w none = w.repr null
repr_args w (some args) = w.repr (arr (items_of args))

-- The arguments are `[str(v) for v in params.values()]`; without parameters the caller passes None,
-- which the code treats as it does the empty list, up to the text of a dry run.
unfoldable pub run_script :
    World → String → Option (List String) → Bool → List Event → Ended × List Event
run_script w script_path args dry_run events =
    if dry_run
    then (
      returned (
          simulated (
            "[DRY-RUN] Would execute script: "
            <> (script_path <> (" with args: " <> repr_args w args)))),
      events,
    )
    else run_local w (script_path ∷ list_of args) events

-- The `try` around `shlex.split` and `subprocess.run`
unfoldable pub run_words : World → Option (List String) → List Event → Ended × List Event
run_words w none events = (returned (failure "No closing quotation"), events)
run_words w (some cmd) events = run_local w cmd events

unfoldable pub run_rendered : World → Formatted → Bool → List Event → Ended × List Event
run_rendered w (Formatted.missing e) dry_run events =
    (returned (failure ("Missing parameter " <> (e <> " for command template"))), events)
run_rendered w Formatted.malformed dry_run events = (raised "ValueError", events)
run_rendered w (Formatted.text rendered) dry_run events =
    if dry_run
    then (returned (simulated ("[DRY-RUN] Would run command: " <> rendered)), events)
    else run_words w (split rendered) events

unfoldable pub run_command : World → Value → Fields → Bool → List Event → Ended × List Event
run_command w command_template params dry_run events =
    run_rendered w (format_value command_template (text_params w same params)) dry_run events
