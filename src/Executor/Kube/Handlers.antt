-- ===== src/Executor/Kube/Handlers.antt =====
-- `_kube_patch_configmap` of src/executor.py, and `getattr(self, f"_kube_{verb}")`.
use auto_heal.Prelude.{List, String, false, if◌then◌else◌, true, ◌==◌}
use auto_heal.Value.{Fields, dict_at, end, field, obj, str}
use auto_heal.Executor.Outside.{Event, World, patch_config_map}
use auto_heal.Executor.Kube.Verbs.{
  Handled, call, delete_pod_action, need, rollout_restart, scale, set_schedulable, summary_result,
}
use auto_heal.Executor.Kube.Drain.{drain_node}

-- `_kube_patch_configmap`; `rendered.get("data") or {}`
unfoldable pub patch_configmap : World → Fields → List Event → Handled × List Event
patch_configmap w rendered = need "name" rendered (λ name. need "namespace" rendered (λ namespace.
    let changes = dict_at "data" rendered in
    call w (patch_config_map name namespace changes) (λ _ events'. (
      summary_result w (
          field "configmap" (str name)
            (field "namespace" (str namespace) (field "data" (obj changes) end))),
      events',
    ))))

-- The handler of a verb, one of the seven
unfoldable pub handle : World → String → Fields → List Event → Handled × List Event
handle w verb rendered events =
    if verb == "rollout_restart"
    then rollout_restart w rendered events
    else if verb == "delete_pod"
    then delete_pod_action w rendered events
    else if verb == "scale"
    then scale w rendered events
    else if verb == "cordon_node"
    then set_schedulable w true rendered events
    else if verb == "uncordon_node"
    then set_schedulable w false rendered events
    else if verb == "drain_node"
    then drain_node w rendered events
    else patch_configmap w rendered events
