-- ===== src/Executor/Kube/Drain/Tests.antt =====
-- A drain at a concrete cluster: one pod of a DaemonSet, and one that is evicted.

use auto_heal.Prelude.{String-discrete, [], ap, refl, true, ◌∷◌, ◌≡◌}
use auto_heal.Value.{Fields, end, field, get, str}
use auto_heal.Executor.Result.{simulated}
use auto_heal.Executor.Outside.{
  KubeAnswer, KubeCall, Pod, World, called, delete_pod, done, evict, list_pods, patch_config_map,
  patch_node, patch_scale, patch_workload, pods,
}
use auto_heal.Executor.Kube.Verbs.{finished}
use auto_heal.Executor.Kube.Drain.{drain_node, evict_all}
use auto_heal.Executor.Kube.Drain.Laws.{Drained, drain_node-Drained}
use auto_heal.Executor.Tests.{calm}

abbrev agent : Pod
agent = record { name = "agent"; namespace = "kube-system"; owner_kinds = "DaemonSet" ∷ [] }

abbrev web : Pod
web = record { name = "web"; namespace = "shop"; owner_kinds = "ReplicaSet" ∷ [] }

abbrev answers : KubeCall → KubeAnswer
answers (list_pods node) = pods (agent ∷ web ∷ [])
answers (patch_node node cordoned) = done
answers (evict pod namespace) = done
answers (delete_pod pod namespace) = done
answers (patch_workload resource pod namespace) = done
answers (patch_scale resource pod namespace n) = done
answers (patch_config_map pod namespace f) = done

abbrev cluster : World
cluster = record calm { kube = λ events k. answers k }

abbrev node : Fields
node = field "node_name" (str "n1") end

drains : drain_node cluster node [] ≡ (
  finished (simulated "{}"),
  called (patch_node "n1" true) ∷ called (list_pods "n1") ∷ called (evict "web" "shop") ∷ [],
)
unfolding drain_node evict_all get String-discrete
drains = refl

drain_node-Drained_example : Drained cluster node [] (drain_node cluster node []).1
drain_node-Drained_example =
    drain_node-Drained cluster node [] (simulated "{}") (ap (λ x. x.0) drains) refl
