-- ===== src/Executor/Kube/Calls.antt =====
-- The handlers of the verbs make no temporary files.

use auto_heal.Prelude.{
  Bool, Bool-cases, List, Option, Option-cases, String, [], arith, contains, false, inl, inr, none,
  refl, some, true, ℤ, ◌++◌, ◌∙◌, ◌∷◌, ◌≡◌, ◌⊎◌,
}
use auto_heal.Value.{Fields, text_at}
use auto_heal.Executor.Outside.{
  Event, KubeAnswer, KubeCall, Pod, World, api_error, called, client_error, done, evict, list_pods,
  patch_node, pods,
}
use auto_heal.Executor.Remote.Secrets.{leftover}
use auto_heal.Executor.Kube.Verbs.{
  Handled, call, delete_pod_action, need, replicas_of, resource_of, rollout_restart, scale,
  scale_to, set_schedulable,
}
use auto_heal.Executor.Kube.Drain.{
  Tally, drain_node, evict_all, evict_listed, is_daemon, list_and_evict, no_pods, pods_of,
  record_eviction,
}
use auto_heal.Executor.Kube.Handlers.{handle, patch_configmap}
use auto_heal.Executor.Kube.Secrets.{leftover-called}

-- A step that leaves the temporary files as they were
abbrev pub Keeps : (List Event → Handled × List Event) → Type 0
Keeps f = (events : List Event) → leftover (f events).1 ≡ leftover events

need-Keeps :
    (key : String) (rendered : Fields) (next : String → List Event → Handled × List Event)
    → ((s : String) → Keeps (next s))
    → Keeps (need key rendered next)
need-Keeps key rendered next h events = elim (Option-cases (text_at key rendered)) [
  | inl absent ↦ rw (absent, need) refl
  | inr (s, given) ↦ rw (given, need) (h s events)
]

call-Keeps :
    (w : World) (k : KubeCall) (next : KubeAnswer → List Event → Handled × List Event)
    → ((a : KubeAnswer) → Keeps (next a))
    → Keeps (call w k next)
call-Keeps w k next h events = answered (w.kube events k) refl
  where
    answered :
        (a : KubeAnswer) → w.kube events k ≡ a → leftover (call w k next events).1 ≡ leftover events
    answered done e = rw (e, call) (h done (events ++ called k ∷ []) ∙ leftover-called events k)
    answered (pods ps) e =
        rw (e, call) (h (pods ps) (events ++ called k ∷ []) ∙ leftover-called events k)
    answered (api_error status reason body) e = rw (e, call) (leftover-called events k)
    answered (client_error x) e = rw (e, call) (leftover-called events k)

-- The last call of a handler, with the handler's result
last_call-Keeps :
    (w : World) (k : KubeCall) (h : Handled) → Keeps (call w k (λ _ events. (h, events)))
last_call-Keeps w k h = call-Keeps w k (λ _ events. (h, events)) (λ a events. refl)

rollout_restart-Keeps : (w : World) (rendered : Fields) → Keeps (rollout_restart w rendered)
unfolding rollout_restart
rollout_restart-Keeps w rendered = need-Keeps "name" rendered _ (λ name.
    need-Keeps "namespace" rendered _ (λ namespace events.
      elim (Bool-cases
        (contains (resource_of rendered) ("deployment" ∷ "statefulset" ∷ "daemonset" ∷ []))) [
          | inl known ↦ rw known (last_call-Keeps w _ _ events)
          | inr other ↦ rw other refl
        ]))

delete_pod_action-Keeps : (w : World) (rendered : Fields) → Keeps (delete_pod_action w rendered)
unfolding delete_pod_action
delete_pod_action-Keeps w rendered =
    need-Keeps "name" rendered _
      (λ name. need-Keeps "namespace" rendered _ (λ namespace. last_call-Keeps w _ _))

scale_to-Keeps :
    (w : World) (resource name namespace : String) (n : Option ℤ)
    → Keeps (scale_to w resource name namespace n)
scale_to-Keeps w resource name namespace none events = refl
scale_to-Keeps w resource name namespace (some n) events =
    elim (Bool-cases (contains resource ("deployment" ∷ "statefulset" ∷ "replicaset" ∷ []))) [
      | inl known ↦ rw known (last_call-Keeps w _ _ events)
      | inr other ↦ rw other refl
    ]

scale-Keeps : (w : World) (rendered : Fields) → Keeps (scale w rendered)
unfolding scale
scale-Keeps w rendered = need-Keeps "name" rendered _ (λ name.
    need-Keeps "namespace" rendered _ (λ namespace.
      scale_to-Keeps w (resource_of rendered) name namespace (replicas_of w rendered)))

set_schedulable-Keeps :
    (w : World) (b : Bool) (rendered : Fields) → Keeps (set_schedulable w b rendered)
unfolding set_schedulable
set_schedulable-Keeps w b rendered =
    need-Keeps "node_name" rendered _ (λ node. last_call-Keeps w _ _)

patch_configmap-Keeps : (w : World) (rendered : Fields) → Keeps (patch_configmap w rendered)
unfolding patch_configmap
patch_configmap-Keeps w rendered =
    need-Keeps "name" rendered _
      (λ name. need-Keeps "namespace" rendered _ (λ namespace. last_call-Keeps w _ _))

leftover-evict_all :
    (w : World) (ps : List Pod) (t : Tally) (events : List Event)
    → leftover (evict_all w ps t events).1 ≡ leftover events
unfolding evict_all
leftover-evict_all w [] t events = refl
leftover-evict_all w (p ∷ ps) t events = elim (Bool-cases (is_daemon p)) [
  | inl daemon ↦ rw (daemon, evict_all) (leftover-evict_all w ps _ events)
  | inr plain ↦
      rw (plain, evict_all)
        (noted (record_eviction w p (w.kube events (evict p.name p.namespace)) t)
          (λ u. leftover-evict_all w ps u (events ++ called (evict p.name p.namespace) ∷ [])))
]
  where
    noted :
        (o : Tally ⊎ String)
        → ((u : Tally)
            → leftover (evict_all w ps u (events ++ called (evict p.name p.namespace) ∷ [])).1
              ≡ leftover (events ++ called (evict p.name p.namespace) ∷ []))
        → leftover
            (elim o as (λ x. (Tally ⊎ String) × List Event) [
              | inl u ↦ evict_all w ps u (events ++ called (evict p.name p.namespace) ∷ [])
              | inr e ↦ (inr e, events ++ called (evict p.name p.namespace) ∷ [])
            ]).1
          ≡ leftover events
    noted (inl u) ih = ih u ∙ leftover-called events (evict p.name p.namespace)
    noted (inr e) ih = leftover-called events (evict p.name p.namespace)

drain_node-Keeps : (w : World) (rendered : Fields) → Keeps (drain_node w rendered)
unfolding drain_node
drain_node-Keeps w rendered = need-Keeps "node_name" rendered _ (λ node.
    call-Keeps w (patch_node node true) (λ a. list_and_evict w node)
      (λ a.
        call-Keeps w (list_pods node) (evict_listed w node)
          (λ listing events. leftover-evict_all w (pods_of listing) no_pods events)))

-- The handler of any verb
pub handle-Keeps : (w : World) (verb : String) (rendered : Fields) → Keeps (handle w verb rendered)
unfolding handle
handle-Keeps w verb rendered events = ground (
  arith,
  rollout_restart-Keeps w rendered events,
  delete_pod_action-Keeps w rendered events,
  scale-Keeps w rendered events,
  set_schedulable-Keeps w true rendered events,
  set_schedulable-Keeps w false rendered events,
  drain_node-Keeps w rendered events,
  patch_configmap-Keeps w rendered events,
)
