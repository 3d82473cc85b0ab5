-- ===== src/Executor/Kube.antt =====
-- `run_kube_action` of src/executor.py.
pub mod Render
pub mod Configuration
pub mod Verbs
pub mod Drain
pub mod Handlers
pub mod Secrets
pub mod Calls
use auto_heal.Prelude.{
  Bool, List, String, [], contains, eqb, false, if◌then◌else◌, none, pos, some, ◌<>◌, ◌∷◌,
}
use auto_heal.Value.{Fields, text_at}
use auto_heal.Executor.Outside.{Event, World}
use auto_heal.Executor.Result.{Ended, failure, raised, returned, simulated}
use auto_heal.Executor.Kube.Render.{
  Rendered, describe_kube_action, fields, lacking, render_kube_action_fields, unreadable,
}
use auto_heal.Executor.Kube.Configuration.{
  Credentials, build_kube_configuration, no_credentials, no_vault, remove_all, usable,
}
use auto_heal.Executor.Kube.Verbs.{Handled, api_exception, exception, finished, reason_of}
use auto_heal.Executor.Kube.Handlers.{handle}

abbrev pub kube_action_verbs : List String
kube_action_verbs =
    "rollout_restart" ∷ "delete_pod" ∷ "scale" ∷ "cordon_node" ∷ "uncordon_node" ∷ "drain_node"
    ∷ "patch_configmap" ∷ []

-- The `except` clauses around the handler: an `ApiException`, any other exception, or its result.
abbrev pub close_handler : World → Handled → Ended
close_handler w (finished r) = returned r
close_handler w (api_exception status reason body) = returned (record {
  success = false;
  stdout = "";
  stderr = body;
  exit_code = pos (if eqb status 0 then 1 else status);
  error = some ("Kubernetes API error: " <> reason_of w status reason body);
})
close_handler w (exception e) = returned (failure e)

abbrev pub with_credentials :
    World → String → Fields → Credentials × List Event → Ended × List Event
with_credentials w verb rendered (usable cleanup_paths, events) =
    let (h, events') = handle w verb rendered events in
    (close_handler w h, remove_all w cleanup_paths events')
with_credentials w verb rendered (no_vault e, events) =
    (returned (failure ("Failed to resolve kube credentials from Vault: " <> e)), events)
with_credentials w verb rendered (no_credentials e, events) =
    (returned (failure ("Failed to build Kubernetes client config: " <> e)), events)

abbrev pub with_rendered :
    World → Fields → String → Rendered → Bool → List Event → Ended × List Event
with_rendered w controller verb (lacking e) dry_run events =
    (returned (failure ("Missing parameter " <> (e <> " for kube_action"))), events)
with_rendered w controller verb unreadable dry_run events = (raised "ValueError", events)
with_rendered w controller verb (fields rendered) dry_run events =
    if dry_run
    then (returned (simulated ("[DRY-RUN] Would " <> describe_kube_action w verb rendered)), events)
    else with_credentials w verb rendered (build_kube_configuration w controller events)

abbrev pub verb_of : Fields → String
verb_of action = elim (text_at "kube_action" action) [ none ↦ "None" | some verb ↦ verb ]

-- `run_kube_action`
unfoldable pub run_kube_action :
    World → Fields → Fields → Fields → Bool → List Event → Ended × List Event
run_kube_action w controller action params dry_run events =
    let verb = verb_of action in
    if contains verb kube_action_verbs
    then with_rendered w controller verb (render_kube_action_fields w action params) dry_run events
    else (returned (failure ("Unknown kube_action '" <> (verb <> "'"))), events)
