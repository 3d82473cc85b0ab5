-- ===== src/Executor/Kube/Drain.antt =====
-- `_kube_drain_node` of src/executor.py.
pub mod Loop
pub mod Laws
pub mod Tests
use auto_heal.Prelude.{
  Bool, List, String, [], contains, false, if◌then◌else◌, inl, inr, length, pos, some, true, ◌++◌,
  ◌<>◌, ◌∷◌, ◌⊎◌,
}
use auto_heal.Value.{Fields, Items, arr, cons, end, field, nil, num, obj, str}
use auto_heal.Executor.Outside.{
  Event, KubeAnswer, Pod, World, api_error, called, client_error, evict, list_pods, patch_node,
  pods,
}
use auto_heal.Executor.Kube.Verbs.{
  Handled, call, exception, finished, need, reason_of, summary_result,
}

-- The lists `evicted`, `skipped` and `failed`; a failed pod stands with the reason.
pub record Tally : Type 0 where
  pub evicted : List String
  pub skipped : List String
  pub failed : List (String × String)

-- `any(o.kind == "DaemonSet" for o in owners)`
abbrev pub is_daemon : Pod → Bool
is_daemon pod = contains "DaemonSet" pod.owner_kinds

-- What one eviction adds to the lists: an `ApiException` is caught, any other goes on.
abbrev pub record_eviction : World → Pod → KubeAnswer → Tally → Tally ⊎ String
record_eviction w pod (api_error status reason body) t =
    inl (record t { failed = t.failed ++ (pod.name, reason_of w status reason body) ∷ [] })
record_eviction w pod (client_error e) t = inr e
record_eviction w pod _ t = inl (record t { evicted = t.evicted ++ pod.name ∷ [] })

-- The loop over the pods
unfoldable pub evict_all : World → List Pod → Tally → List Event → (Tally ⊎ String) × List Event
evict_all w [] t events = (inl t, events)
evict_all w (pod ∷ rest) t events =
    let skip = evict_all w rest (record t { skipped = t.skipped ++ pod.name ∷ [] }) events in
    let k = evict pod.name pod.namespace in
    let events' = events ++ called k ∷ [] in
    let next : (Tally ⊎ String) × List Event = elim (record_eviction w pod (w.kube events k) t) [
      | inl t' ↦ evict_all w rest t' events'
      | inr e ↦ (inr e, events')
    ] in
    if is_daemon pod then skip else next

abbrev texts : List String → Items
texts [] = nil
texts (s ∷ ss) = cons (str s) (texts ss)

abbrev failures : List (String × String) → Items
failures [] = nil
failures ((pod, e) ∷ rest) =
    cons (obj (field "pod" (str pod) (field "error" (str e) end))) (failures rest)

abbrev summary_of : String → Tally → Fields
summary_of node_name t = field "node" (str node_name) (
    field "evicted" (arr (texts t.evicted)) (
      field "skipped_daemonset_pods" (arr (texts t.skipped))
        (field "failed" (arr (failures t.failed)) end)))

-- A node is drained when no eviction failed.
abbrev pub tally_result : World → String → Tally → List (String × String) → Handled
tally_result w node_name t [] = summary_result w (summary_of node_name t)
tally_result w node_name t (p ∷ ps) = finished (record {
  success = false;
  stdout = w.dumps (obj (summary_of node_name t));
  stderr = "";
  exit_code = pos 1;
  error = some (
      w.repr (num (pos (length t.failed)))
      <> (" pod(s) could not be evicted from '" <> (node_name <> "'")));
})

abbrev pub drain_result : World → String → (Tally ⊎ String) → Handled
drain_result w node_name (inr e) = exception e
drain_result w node_name (inl t) = tally_result w node_name t t.failed

abbrev pub pods_of : KubeAnswer → List Pod
pods_of (pods ps) = ps
pods_of _ = []

abbrev pub no_pods : Tally
no_pods = record { evicted = []; skipped = []; failed = [] }

-- The loop over the listed pods, and the result
abbrev pub evict_listed : World → String → KubeAnswer → List Event → Handled × List Event
evict_listed w node_name answer events =
    let (outcome, events') = evict_all w (pods_of answer) no_pods events in
    (drain_result w node_name outcome, events')

abbrev pub list_and_evict : World → String → List Event → Handled × List Event
list_and_evict w node_name = call w (list_pods node_name) (evict_listed w node_name)

-- `_kube_drain_node`
unfoldable pub drain_node : World → Fields → List Event → Handled × List Event
unfolding evict_all
drain_node w rendered =
    need "node_name" rendered
      (λ node_name. call w (patch_node node_name true) (λ _. list_and_evict w node_name))
