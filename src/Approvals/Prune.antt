-- ===== src/Approvals/Prune.antt =====
-- The entries of the queue and `_prune_approval_queue_locked`.
pub mod Laws
use auto_heal.Prelude.{
  Bool, List, Option, String, [], eqb, false, if◌then◌else◌, length, ltb, suc, take, true, ℕ, ◌-◌,
  ◌||◌, ◌∷◌,
}
use auto_heal.Value.{Fields, Value}

pub data Status : Type 0 where
  pending approved rejected : Status

pub record Approval : Type 0 where
  pub id : String
  pub payload : Fields
  pub status : Status
  pub result : Value
  pub requested_by : String
  pub role : Option String
  pub controller : String
  pub approved_by : Option String
  pub approver_role : Option String

abbrev pub max_processed_approvals : ℕ
max_processed_approvals = 500

-- `e["status"] == "pending"`
abbrev pub is_pending : Approval → Bool
is_pending e = elim e.status [ pending ↦ true | _ ↦ false ]

-- `processed_positions`, from the position `i` on
unfoldable pub processed_positions : ℕ → List Approval → List ℕ
processed_positions i [] = []
processed_positions i (e ∷ es) =
    let rest = processed_positions (suc i) es in if is_pending e then rest else i ∷ rest

-- `i in drop`
unfoldable pub is_in : ℕ → List ℕ → Bool
is_in i [] = false
is_in i (j ∷ js) = eqb i j || is_in i js

-- `[e for i, e in enumerate(approval_queue) if i not in drop]`, from the position `i` on
unfoldable pub keep_positions : List ℕ → ℕ → List Approval → List Approval
unfolding is_in
keep_positions drops i [] = []
keep_positions drops i (e ∷ es) =
    let rest = keep_positions drops (suc i) es in if is_in i drops then rest else e ∷ rest

-- The pruning to at most `limit` processed entries; the program's limit is 500.
unfoldable pub prune_to : ℕ → List Approval → List Approval
unfolding processed_positions keep_positions
prune_to limit queue =
    let positions = processed_positions 0 queue in
    let excess = length positions - limit in
    if ltb 0 excess then keep_positions (take excess positions) 0 queue else queue

unfoldable pub prune : List Approval → List Approval
unfolding prune_to
prune queue = prune_to max_processed_approvals queue
