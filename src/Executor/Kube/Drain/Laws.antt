-- ===== src/Executor/Kube/Drain/Laws.antt =====
-- What a drain that reports success has done.

use auto_heal.Executor.Kube.Drain.Loop.{
  AllEvicted, accepts, evict_all-AllEvicted, evictions, movable,
}
use auto_heal.Executor.Kube.Verbs.{Handled, api_exception, call, exception, finished, need}
use auto_heal.Executor.Result.{ActionExecutionResult}
use auto_heal.Value.{Fields, text_at}
use auto_heal.Prelude.{
  List, Option-cases, String, [], ap, inl, inr, refl, some, sym, true, ◌++◌, ◌<>◌, ◌∙◌, ◌∷◌, ◌≡◌,
  ◌⊎◌,
}
use auto_heal.Executor.Outside.{
  Event, KubeAnswer, KubeCall, World, api_error, called, client_error, done, list_pods, patch_node,
  pods,
}
use auto_heal.Executor.Kube.Drain.{
  Tally, drain_node, drain_result, evict_all, evict_listed, list_and_evict, no_pods, pods_of,
  tally_result,
}

-- A drain that has drained: the node was cordoned, its pods were listed, and then the pods that no
-- DaemonSet owns were evicted in their order, each accepted by the cluster. Nothing else was called.
pub record Drained (w : World) (rendered : Fields) (events now : List Event) : Type 0 where
  pub node_name : String
  pub named : text_at "node_name" rendered ≡ some node_name
  pub cordoned : accepts (w.kube events (patch_node node_name true)) ≡ true
  pub listing : KubeAnswer
  pub listed :
      w.kube (events ++ called (patch_node node_name true) ∷ []) (list_pods node_name) ≡ listing
  pub heard : accepts listing ≡ true
  pub evicted :
      AllEvicted w
        ((events ++ called (patch_node node_name true) ∷ []) ++ called (list_pods node_name) ∷ [])
        (movable (pods_of listing))
  pub all_calls :
      now
      ≡ ((events ++ called (patch_node node_name true) ∷ []) ++ called (list_pods node_name) ∷ [])
        ++ evictions (movable (pods_of listing))

tally_result-success :
    (w : World) (node_name : String) (u : Tally) (fs : List (String × String))
    (r : ActionExecutionResult)
    → tally_result w node_name u fs ≡ finished r
    → r.success ≡ true
    → fs ≡ []
tally_result-success w node_name u [] r h good = refl
tally_result-success w node_name u (p ∷ ps) r h good = absurd (cc (h, good))

drain_result-success :
    (w : World) (node_name : String) (o : Tally ⊎ String) (r : ActionExecutionResult)
    → drain_result w node_name o ≡ finished r
    → r.success ≡ true
    → (u : Tally) × (o ≡ inl u) × (u.failed ≡ [])
drain_result-success w node_name (inr e) r h good = absurd (cc h)
drain_result-success w node_name (inl u) r h good =
    (u, refl, tally_result-success w node_name u u.failed r h good)

-- A call that is followed by a result was accepted.
call-accepts :
    (w : World) (k : KubeCall) (next : KubeAnswer → List Event → Handled × List Event)
    (events : List Event) (r : ActionExecutionResult)
    → (call w k next events).0 ≡ finished r
    → (accepts (w.kube events k) ≡ true)
      × (call w k next events ≡ next (w.kube events k) (events ++ called k ∷ []))
call-accepts w k next events r h = answered (w.kube events k) refl h
  where
    answered :
        (a : KubeAnswer)
        → w.kube events k ≡ a
        → (call w k next events).0 ≡ finished r
        → (accepts (w.kube events k) ≡ true)
          × (call w k next events ≡ next (w.kube events k) (events ++ called k ∷ []))
    answered done e h' = (rw e refl, rw (e, call) refl)
    answered (pods ps) e h' = (rw e refl, rw (e, call) refl)
    answered (api_error status reason body) e h' =
        let bad : (call w k next events).0 ≡ api_exception status reason body = rw (e, call) refl in
        absurd (cc (bad, h'))
    answered (client_error x) e h' =
        let bad : (call w k next events).0 ≡ exception x = rw (e, call) refl in
        absurd (cc (bad, h'))

need-text :
    (key : String) (rendered : Fields) (next : String → List Event → Handled × List Event)
    (events : List Event) (r : ActionExecutionResult)
    → (need key rendered next events).0 ≡ finished r
    → (s : String) × (text_at key rendered ≡ some s)
      × (need key rendered next events ≡ next s events)
need-text key rendered next events r h = elim (Option-cases (text_at key rendered)) [
  | inl absent ↦
      let bad : (need key rendered next events).0 ≡ exception ("'" <> (key <> "'")) =
        rw (absent, need) refl in
      absurd (cc (bad, h))
  | inr (s, e) ↦ (s, e, rw (e, need) refl)
]

-- A drain that reports success has drained its node: the pods that no DaemonSet owns are evicted.
pub drain_node-Drained :
    (w : World) (rendered : Fields) (events : List Event) (r : ActionExecutionResult)
    → (drain_node w rendered events).0 ≡ finished r
    → r.success ≡ true
    → Drained w rendered events (drain_node w rendered events).1
unfolding drain_node
drain_node-Drained w rendered events r h good =
    let cordon = λ (n : String). call w (patch_node n true) (λ _. list_and_evict w n) in
    let (node, named, s1) = need-text "node_name" rendered cordon events r h in
    let h1 : (cordon node events).0 ≡ finished r = sym (ap (λ x. x.0) s1) ∙ h in
    let (cordoned, s2) =
      call-accepts w (patch_node node true) (λ _. list_and_evict w node) events r h1 in
    let events1 = events ++ called (patch_node node true) ∷ [] in
    let h2 : (list_and_evict w node events1).0 ≡ finished r = sym (ap (λ x. x.0) s2) ∙ h1 in
    let (heard, s3) = call-accepts w (list_pods node) (evict_listed w node) events1 r h2 in
    let events2 = events1 ++ called (list_pods node) ∷ [] in
    let listing = w.kube events1 (list_pods node) in
    let h3 : (evict_listed w node listing events2).0 ≡ finished r = sym (ap (λ x. x.0) s3) ∙ h2 in
    let loop = evict_all w (pods_of listing) no_pods events2 in
    let (u, ended, clean) = drain_result-success w node loop.0 r h3 good in
    let (evicted, trace) = evict_all-AllEvicted w (pods_of listing) no_pods u events2 ended clean in
    record {
      node_name = node;
      named = named;
      cordoned = cordoned;
      listing = listing;
      listed = refl;
      heard = heard;
      evicted = evicted;
      all_calls = ap (λ x. x.1) (s1 ∙ s2 ∙ s3) ∙ trace;
    }
