-- ===== src/Approvals/Tests.antt =====
-- Pruning at a concrete queue.
use auto_heal.Prelude.{List, String, [], length, none, refl, some, ◌∷◌, ◌≡◌, ◌≤◌}
use auto_heal.Value.{end, null}
use auto_heal.Approvals.Prune.{Approval, Status, approved, pending, prune, prune_to, rejected}
use auto_heal.Approvals.Prune.Laws.{pending_of, processed_of, prune_keeps}

abbrev entry : String → Status → Approval
entry id status = record {
  id = id;
  payload = end;
  status = status;
  result = null;
  requested_by = "operator-key";
  role = some "operator";
  controller = "local";
  approved_by = none;
  approver_role = none;
}

abbrev queue : List Approval
queue = entry "1" rejected ∷ entry "2" pending ∷ entry "3" approved ∷ entry "4" approved ∷ []

pruned_to_one : prune_to 1 queue ≡ entry "2" pending ∷ entry "4" approved ∷ []
unfolding prune_to
pruned_to_one = refl

prune_keeps_example :
    (pending_of (prune queue) ≡ entry "2" pending ∷ [])
    × (processed_of (prune queue)
        ≡ entry "1" rejected ∷ entry "3" approved ∷ entry "4" approved ∷ [])
    × (length (processed_of (prune queue)) ≤ 500)
prune_keeps_example = prune_keeps queue
