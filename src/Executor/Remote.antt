-- ===== src/Executor/Remote.antt =====
-- `_build_remote_command`, `_resolve_secret_file` and `run_remote` of src/executor.py.
pub mod Quoting
pub mod Secrets
use auto_heal.Prelude.{
  Bool, List, Option, String, [], eqb, false, if◌then◌else◌, negsuc, none, pos, some, ℤ, ◌++◌, ◌<>◌,
  ◌==◌, ◌∷◌,
}
use auto_heal.Value.{Fields, Value, end, get_or, has, null, obj, str, text_at, truthy}
use auto_heal.Vault.Reference.{Resolved, from_vault, no_secret, plain, resolve_vault_ref}
use auto_heal.Executor.Outside.{
  Completed, Event, World, completed, failed, ran, removed, text, timed_out, wrote,
}
use auto_heal.Executor.Result.{
  ActionExecutionResult, Ended, failure, local_result, raised, returned, simulated,
}
use auto_heal.Executor.Params.{format_value, strip, text_of, text_params, text_values}
use auto_heal.Executor.Shell.{join_words, quote}
use auto_heal.Executor.Format.{Formatted, malformed, missing}
use auto_heal.Executor.Format

-- The command line; None; a missing parameter; a `ValueError`.
pub data Built : Type 0 where
  line : String → Built
  no_command : Built
  lacks : String → Built
  invalid : Built

abbrev of_format : Formatted → Built
of_format (Formatted.text s) = line s
of_format (Formatted.missing e) = lacks e
of_format Formatted.malformed = invalid

-- `shlex.quote(v)`, of a value that is a text; of any other it raises
abbrev quoted : Value → (String → Built) → Built
quoted (str s) k = k (quote s)
quoted _ k = invalid

abbrev pub vars_words : World → Fields → List String
vars_words w end = []
vars_words w params = "--extra-vars" ∷ quote (w.dumps (obj params)) ∷ []

-- `_build_remote_command`
unfoldable pub build_remote_command : World → Fields → Fields → Built
build_remote_command w action params =
    if has "command" action
    then of_format (format_value (get_or "command" null action) (text_params w quote params))
    else if has "playbook" action
    then quoted (get_or "playbook" null action)
        (λ path. line (join_words ("ansible-playbook" ∷ path ∷ vars_words w params)))
    else if has "script" action
    then quoted (get_or "script" null action)
        (λ path. line (join_words (path ∷ text_values w quote params)))
    else no_command

-- The path to use and the temporary file to remove, a `VaultUnavailableError`, or another exception.
pub data SecretFile : Type 0 where
  file : Option String → Option String → SecretFile
  vault_error : String → SecretFile
  write_error : SecretFile

-- `os.unlink`; where it fails the file stays.
abbrev pub unlink : World → String → List Event → List Event
unlink w p events = if w.can_unlink events p then events ++ removed p ∷ [] else events

-- The temporary file is made, and removed again where its text cannot be written (a secret that
-- is no text).
abbrev pub materialize : World → Resolved → List Event → SecretFile × List Event
materialize w (plain value) events = (file value none, events)
materialize w (no_secret e) events = (vault_error e, events)
materialize w (from_vault (str secret_value)) events =
    let tmp_path = w.temp_path events in
    (file (some tmp_path) (some tmp_path), events ++ wrote tmp_path secret_value ∷ [])
materialize w (from_vault v) events =
    let tmp_path = w.temp_path events in
    (write_error, unlink w tmp_path (events ++ wrote tmp_path "" ∷ []))

-- `_resolve_secret_file`
unfoldable pub resolve_secret_file :
    World → Option String → String → List Event → SecretFile × List Event
resolve_secret_file w value default_field events =
    materialize w (resolve_vault_ref (w.get_secret events) value (some default_field)) events

-- `_resolve_ssh_key`
abbrev pub resolve_ssh_key : World → Option String → List Event → SecretFile × List Event
resolve_ssh_key w ssh_key = resolve_secret_file w ssh_key "private_key"

-- The removal in the `finally` block, which passes over an `OSError`
abbrev pub clean_up : World → Option String → List Event → List Event
clean_up w none events = events
clean_up w (some tmp_path) events = unlink w tmp_path events

abbrev ssh_options : List String
ssh_options =
    "ssh" ∷ "-o" ∷ "BatchMode=yes" ∷ "-o" ∷ "StrictHostKeyChecking=accept-new" ∷ "-o"
    ∷ "ConnectTimeout=10" ∷ []

abbrev key_options : Option String → List String
key_options none = []
key_options (some key) = if key == "" then [] else "-i" ∷ key ∷ []

abbrev pub ssh_command : String → String → Option String → String → List String
ssh_command ssh_user host key remote_cmd =
    ssh_options ++ (key_options key ++ (ssh_user <> ("@" <> host)) ∷ remote_cmd ∷ [])

-- `returncode == SSH_CONNECTION_FAILURE_EXIT_CODE`
abbrev pub is_connection_failure : ℤ → Bool
is_connection_failure (pos n) = eqb n 255
is_connection_failure (negsuc n) = false

-- `proc.stderr.strip() or "SSH exited with code 255"`
abbrev or_default : String → String
or_default detail = if detail == "" then "SSH exited with code 255" else detail

unfoldable pub remote_result : String → Completed → ActionExecutionResult
remote_result target (completed code out err) =
    if is_connection_failure code
    then record {
      success = false;
      stdout = out;
      stderr = err;
      exit_code = code;
      error = some ("SSH connection to " <> (target <> (" failed: " <> or_default (strip err))));
    }
    else local_result (completed code out err)
remote_result target (timed_out e) = failure ("Remote execution timed out: " <> e)
remote_result target (failed e) = failure e

abbrev pub run_with_key :
    World → String → String → String → SecretFile × List Event → Ended × List Event
run_with_key w host ssh_user remote_cmd (file key tmp, events) =
    let cmd = ssh_command ssh_user host key remote_cmd in
    (
      returned (remote_result (ssh_user <> ("@" <> host)) (w.run events cmd)),
      clean_up w tmp (events ++ ran cmd ∷ []),
    )
run_with_key w host ssh_user remote_cmd (vault_error e, events) =
    (returned (failure ("Failed to resolve SSH key from Vault: " <> e)), events)
run_with_key w host ssh_user remote_cmd (write_error, events) = (raised "TypeError", events)

unfoldable pub run_built :
    World → Fields → String → String → Built → Bool → List Event → Ended × List Event
run_built w controller host ssh_user (lacks e) dry_run events =
    (returned (failure ("Missing parameter " <> (e <> " for command template"))), events)
run_built w controller host ssh_user invalid dry_run events = (raised "ValueError", events)
run_built w controller host ssh_user no_command dry_run events =
    (returned (failure "No playbook, script, or command defined for action."), events)
run_built w controller host ssh_user (line remote_cmd) dry_run events =
    if dry_run
    then (
      returned (
          simulated (
            "[DRY-RUN] Would SSH to "
            <> (ssh_user <> ("@" <> (host <> (" and run: " <> remote_cmd)))))),
      events,
    )
    else run_with_key w host ssh_user remote_cmd
        (resolve_ssh_key w (text_at "ssh_key" controller) events)

-- A text that is not empty
abbrev pub filled_text : Option String → Option String
filled_text none = none
filled_text (some s) = if s == "" then none else some s

-- `host`, `ssh_user`: what is filled, as the f-strings print it
abbrev pub printed_at : World → String → Fields → Option String
printed_at w key controller =
    let v = get_or key null controller in if truthy v then some (text_of w v) else none

-- `run_remote`
unfoldable pub run_remote :
    World → Fields → Fields → Fields → Bool → List Event → Ended × List Event
run_remote w controller action params dry_run events = elim (printed_at w "host" controller) [
  | none ↦ (returned (failure "Controller has no 'host' configured for remote execution."), events)
  | some host ↦ elim (printed_at w "ssh_user" controller) [
    | none ↦
        (returned (failure "Controller has no 'ssh_user' configured for remote execution."), events)
    | some ssh_user ↦
        run_built w controller host ssh_user (build_remote_command w action params) dry_run events
  ]
]
