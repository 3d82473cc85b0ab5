-- ===== src/Executor/Kube/Verbs.antt =====
-- The handlers `_kube_*` of src/executor.py.
use auto_heal.Prelude.{
  Bool, List, Option, String, [], contains, if◌then◌else◌, none, some, ℕ, ℤ, ◌++◌, ◌<>◌, ◌==◌, ◌∷◌,
}
use auto_heal.Value.{Fields, Value, bool, dict_at, end, field, get, num, obj, str, text_at}
use auto_heal.Executor.Outside.{
  Event, KubeAnswer, KubeCall, World, api_error, called, client_error, delete_pod, done, patch_node,
  patch_scale, patch_workload, pods,
}
use auto_heal.Executor.Result.{ActionExecutionResult, failure, simulated}

-- A handler returns, or raises an `ApiException` or another exception.
pub data Handled : Type 0 where
  finished : ActionExecutionResult → Handled
  api_exception : ℕ → String → String → Handled
  exception : String → Handled

-- `e.reason or str(e)`
abbrev pub reason_of : World → ℕ → String → String → String
reason_of w status reason body = if reason == "" then w.api_text status reason body else reason

-- `ActionExecutionResult(True, json.dumps(summary), "", 0, error=None)`
abbrev pub summary_result : World → Fields → Handled
summary_result w summary = finished (simulated (w.dumps (obj summary)))

-- One call of the client, and what follows where it does not raise
abbrev pub call :
    World
    → KubeCall
    → (KubeAnswer → List Event → Handled × List Event)
    → List Event
    → Handled × List Event
call w k next events =
    let events' = events ++ called k ∷ [] in
    elim (w.kube events k) [
      | api_error status reason body ↦ (api_exception status reason body, events')
      | client_error e ↦ (exception e, events')
      | done ↦ next done events'
      | pods ps ↦ next (pods ps) events'
    ]

-- The text at a key, `rendered[key]`; a missing one raises a `KeyError`, whose text has quotes.
abbrev pub need :
    String
    → Fields
    → (String → List Event → Handled × List Event)
    → List Event
    → Handled × List Event
need key rendered next events = elim (text_at key rendered) [
  | none ↦ (exception ("'" <> (key <> "'")), events)
  | some s ↦ next s events
]

abbrev pub resource_of : Fields → String
resource_of rendered = elim (text_at "resource" rendered) [ none ↦ "deployment" | some r ↦ r ]

abbrev one_field : String → Value → Fields → Fields
one_field = field

-- `_kube_rollout_restart`
unfoldable pub rollout_restart : World → Fields → List Event → Handled × List Event
rollout_restart w rendered = need "name" rendered (λ name.
    need "namespace" rendered (λ namespace events.
      let resource = resource_of rendered in
      let restarted_at = w.iso_now events in
      if contains resource ("deployment" ∷ "statefulset" ∷ "daemonset" ∷ [])
      then call w (patch_workload resource name namespace)
          (λ _ events'. (
            summary_result w (
                field "resource" (str resource) (
                  field "name" (str name) (
                    field "namespace" (str namespace)
                      (field "restarted_at" (str restarted_at) end)))),
            events',
          ))
          events
      else (
        finished (failure ("Unsupported resource '" <> (resource <> "' for rollout_restart"))),
        events,
      )))

-- `_kube_delete_pod`
unfoldable pub delete_pod_action : World → Fields → List Event → Handled × List Event
delete_pod_action w rendered = need "name" rendered (λ name. need "namespace" rendered (λ namespace.
    call w (delete_pod name namespace) (λ _ events'. (
      summary_result w (
          field "pod" (str name)
            (field "namespace" (str namespace) (field "action" (str "deleted") end))),
      events',
    ))))

-- `int(rendered["data"]["replicas"])`, where it does not raise
abbrev pub replicas_of : World → Fields → Option ℤ
replicas_of w rendered = elim (get "replicas" (dict_at "data" rendered)) [
  | none ↦ none
  | some v ↦ w.to_int v
]

abbrev pub scale_to :
    World → String → String → String → Option ℤ → List Event → Handled × List Event
scale_to w resource name namespace none events =
    (finished (failure "scale requires an integer 'replicas' in data"), events)
scale_to w resource name namespace (some replicas) events =
    if contains resource ("deployment" ∷ "statefulset" ∷ "replicaset" ∷ [])
    then call w (patch_scale resource name namespace replicas)
        (λ _ events'. (
          summary_result w (
              field "resource" (str resource) (
                field "name" (str name)
                  (field "namespace" (str namespace) (field "replicas" (num replicas) end)))),
          events',
        ))
        events
    else (finished (failure ("Unsupported resource '" <> (resource <> "' for scale"))), events)

-- `_kube_scale`
unfoldable pub scale : World → Fields → List Event → Handled × List Event
scale w rendered = need "name" rendered (λ name.
    need "namespace" rendered
      (λ namespace. scale_to w (resource_of rendered) name namespace (replicas_of w rendered)))

-- `_kube_cordon_node` and `_kube_uncordon_node`
unfoldable pub set_schedulable : World → Bool → Fields → List Event → Handled × List Event
set_schedulable w unschedulable rendered = need "node_name" rendered (λ node_name.
    call w (patch_node node_name unschedulable) (λ _ events'. (
      summary_result w
          (field "node" (str node_name) (field "unschedulable" (bool unschedulable) end)),
      events',
    )))
