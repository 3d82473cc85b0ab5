-- ===== src/Executor/Kube/Configuration.antt =====
-- `_build_kube_configuration` of src/executor.py. Of the configuration only the files behind it are
-- modelled: those that were made for it, which the caller removes.
use auto_heal.Prelude.{
  Bool, List, Option, String, [], false, if◌then◌else◌, none, some, true, ◌&&◌, ◌++◌, ◌∷◌,
}
use auto_heal.Value.{Fields, flag_at, text_at}
use auto_heal.Executor.Outside.{Event, FileText, World, os_error, text}
use auto_heal.Executor.Remote.{
  SecretFile, file, filled_text, resolve_secret_file, unlink, vault_error, write_error,
}

-- The temporary files behind a configuration, a `VaultUnavailableError`, or another exception.
pub data Credentials : Type 0 where
  usable : List String → Credentials
  no_vault : String → Credentials
  no_credentials : String → Credentials

-- `for p in cleanup_paths: os.unlink(p)`, which passes over an `OSError`
unfoldable pub remove_all : World → List String → List Event → List Event
remove_all w [] events = events
remove_all w (p ∷ ps) events = remove_all w ps (unlink w p events)

-- `if tmp: cleanup_paths.append(tmp)`
abbrev pub with_tmp : List String → Option String → List String
with_tmp paths none = paths
with_tmp paths (some tmp) = paths ++ tmp ∷ []

-- The `except Exception` block: what was made so far is removed, and the exception goes on.
abbrev pub give_up : World → List String → Credentials → List Event → Credentials × List Event
give_up w paths c events = (c, remove_all w paths events)

abbrev pub path_or_none : Option String → String
path_or_none none = "None"
path_or_none (some path) = path

abbrev pub load_result : World → List String → Option String → List Event → Credentials × List Event
load_result w paths none events = (usable paths, events)
load_result w paths (some e) events = give_up w paths (no_credentials e) events

abbrev pub from_kubeconfig : World → SecretFile × List Event → Credentials × List Event
from_kubeconfig w (file path tmp, events) =
    load_result w (with_tmp [] tmp) (w.load_kube_config events (path_or_none path)) events
from_kubeconfig w (vault_error e, events) = give_up w [] (no_vault e) events
from_kubeconfig w (write_error, events) = give_up w [] (no_credentials "TypeError") events

-- The certificate, if one is configured; without one TLS verification is off.
abbrev pub with_ca : World → List String → SecretFile × List Event → Credentials × List Event
with_ca w paths (file path tmp, events) = (usable (with_tmp paths tmp), events)
with_ca w paths (vault_error e, events) = give_up w paths (no_vault e) events
with_ca w paths (write_error, events) = give_up w paths (no_credentials "TypeError") events

abbrev pub after_token :
    World → Fields → List String → FileText → List Event → Credentials × List Event
after_token w controller paths (os_error e) events = give_up w paths (no_credentials e) events
after_token w controller paths (text token) events =
    elim (filled_text (text_at "ca_cert" controller)) [
      | none ↦ (usable paths, events)
      | some ca ↦ with_ca w paths (resolve_secret_file w (some ca) "ca_cert" events)
    ]

abbrev pub from_token : World → Fields → SecretFile × List Event → Credentials × List Event
from_token w controller (file path tmp, events) =
    after_token w controller (with_tmp [] tmp) (w.read_token events (path_or_none path)) events
from_token w controller (vault_error e, events) = give_up w [] (no_vault e) events
from_token w controller (write_error, events) = give_up w [] (no_credentials "TypeError") events

abbrev pub has_text : String → Fields → Bool
has_text key controller = elim (filled_text (text_at key controller)) [
  | none ↦ false
  | some s ↦ true
]

-- `_build_kube_configuration`: in_cluster before kubeconfig before api_server with token
unfoldable pub build_kube_configuration : World → Fields → List Event → Credentials × List Event
build_kube_configuration w controller events =
    if flag_at "in_cluster" controller
    then load_result w [] (w.load_incluster events) events
    else if has_text "kubeconfig" controller
    then from_kubeconfig w
        (resolve_secret_file w (text_at "kubeconfig" controller) "kubeconfig" events)
    else if has_text "api_server" controller && has_text "token" controller
    then from_token w controller (resolve_secret_file w (text_at "token" controller) "token" events)
    else (
      no_credentials
          "Controller has no usable kubeapi credentials configured (need one of: in_cluster, kubeconfig, or api_server+token).",
      events,
    )
