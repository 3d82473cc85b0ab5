-- ===== src/Approvals/Prune/Laws.antt =====
-- Pruning by positions drops the oldest processed entries and no other.
use auto_heal.Prelude.{
  All, Bool-cases, List, [], ap, arith, drop, false, if◌then◌else◌, inl, inr, length, length-drop,
  ltb, not, refl, select, suc, take, zero, ℕ, ◌-◌, ◌<◌, ◌∙◌, ◌∷◌, ◌≡◌, ◌≤◌,
}
use auto_heal.Approvals.Prune.{
  Approval, is_in, is_pending, keep_positions, max_processed_approvals, processed_positions, prune,
  prune_to,
}

-- The same by a walk over the queue: without the first `n` processed entries.
unfoldable pub drop_processed : ℕ → List Approval → List Approval
drop_processed zero es = es
drop_processed (suc n) [] = []
drop_processed (suc n) (e ∷ es) =
    if is_pending e then e ∷ drop_processed (suc n) es else drop_processed n es

From : ℕ → List ℕ → Type 0
From i js = All (λ j. i ≤ j) js

From-earlier : (i : ℕ) (js : List ℕ) → All (λ j. suc i ≤ j) js → All (λ j. i ≤ j) js
From-earlier i [] h = tt
From-earlier i (j ∷ js) h = (omega arith, From-earlier i js h.1)

processed_positions-From :
    (i : ℕ) (es : List Approval) → All (λ j. i ≤ j) (processed_positions i es)
unfolding processed_positions
processed_positions-From i [] = tt
processed_positions-From i (e ∷ es) = elim (Bool-cases (is_pending e)) [
  | inl p ↦
      rw p (From-earlier i (processed_positions (suc i) es) (processed_positions-From (suc i) es))
  | inr p ↦ rw p (
    omega arith,
    From-earlier i (processed_positions (suc i) es) (processed_positions-From (suc i) es),
  )
]

take-From : (i n : ℕ) (js : List ℕ) → All (λ j. i ≤ j) js → All (λ j. i ≤ j) (take n js)
take-From i zero js h = tt
take-From i (suc n) [] h = tt
take-From i (suc n) (j ∷ js) h = (h.0, take-From i n js h.1)

is_in-before : (i : ℕ) (js : List ℕ) → All (λ j. suc i ≤ j) js → is_in i js ≡ false
unfolding is_in
is_in-before i [] h = refl
is_in-before i (j ∷ js) h = ground (arith, is_in-before i js h.1)

keep_positions-before :
    (j i : ℕ) (js : List ℕ) (es : List Approval)
    → j < i
    → keep_positions (j ∷ js) i es ≡ keep_positions js i es
unfolding keep_positions
keep_positions-before j i js [] h = refl
keep_positions-before j i js (e ∷ es) h = ground (arith, keep_positions-before j (suc i) js es)

keep_positions-nil : (i : ℕ) (es : List Approval) → keep_positions [] i es ≡ es
unfolding keep_positions
keep_positions-nil i [] = refl
keep_positions-nil i (e ∷ es) = ground (arith, keep_positions-nil (suc i) es)

keep_positions-eq :
    (n i : ℕ) (es : List Approval)
    → keep_positions (take n (processed_positions i es)) i es ≡ drop_processed n es
unfolding keep_positions drop_processed processed_positions
keep_positions-eq zero i es = keep_positions-nil i es
keep_positions-eq (suc n) i [] = refl
keep_positions-eq (suc n) i (e ∷ es) = ground (
  arith,
  keep_positions-eq (suc n) (suc i) es,
  keep_positions-eq n (suc i) es,
  keep_positions-before i (suc i) (take n (processed_positions (suc i) es)) es,
  is_in-before i (take (suc n) (processed_positions (suc i) es)) (
      take-From (suc i) (suc n) (processed_positions (suc i) es)
        (processed_positions-From (suc i) es)),
)

abbrev pub pending_of : List Approval → List Approval
pending_of = select is_pending

abbrev pub processed_of : List Approval → List Approval
processed_of = select (λ e. not (is_pending e))

length-processed_positions :
    (i : ℕ) (es : List Approval) → length (processed_positions i es) ≡ length (processed_of es)
unfolding processed_positions
length-processed_positions i [] = refl
length-processed_positions i (e ∷ es) = ground (arith, length-processed_positions (suc i) es)

cut-eq :
    (n : ℕ) (es : List Approval)
    → (if ltb 0 n then keep_positions (take n (processed_positions 0 es)) 0 es else es)
      ≡ drop_processed n es
unfolding drop_processed
cut-eq zero es = refl
cut-eq (suc n) es = ground (arith, keep_positions-eq (suc n) 0 es)

-- Pruning by positions is the walk that leaves out the oldest of the processed entries.
pub prune_to-eq-drop_processed :
    (limit : ℕ) (es : List Approval)
    → prune_to limit es ≡ drop_processed (length (processed_of es) - limit) es
unfolding prune_to
prune_to-eq-drop_processed limit es =
    rw length-processed_positions (cut-eq (length (processed_of es) - limit) es)

pending_of-drop_processed :
    (n : ℕ) (es : List Approval) → pending_of (drop_processed n es) ≡ pending_of es
unfolding drop_processed
pending_of-drop_processed zero es = refl
pending_of-drop_processed (suc n) [] = refl
pending_of-drop_processed (suc n) (e ∷ es) =
    ground (arith, pending_of-drop_processed (suc n) es, pending_of-drop_processed n es)

processed_of-drop_processed :
    (n : ℕ) (es : List Approval) → processed_of (drop_processed n es) ≡ drop n (processed_of es)
unfolding drop_processed
processed_of-drop_processed zero es = refl
processed_of-drop_processed (suc n) [] = refl
processed_of-drop_processed (suc n) (e ∷ es) =
    ground (arith, processed_of-drop_processed (suc n) es, processed_of-drop_processed n es)

-- Pruning keeps every pending entry, in order, and of the processed ones the last 500, in order.
pub prune_keeps :
    (es : List Approval)
    → (pending_of (prune es) ≡ pending_of es)
      × (processed_of (prune es)
          ≡ drop (length (processed_of es) - max_processed_approvals) (processed_of es))
      × (length (processed_of (prune es)) ≤ max_processed_approvals)
unfolding prune
prune_keeps es =
    let excess = length (processed_of es) - max_processed_approvals in
    let kept =
      ap processed_of (prune_to-eq-drop_processed max_processed_approvals es)
      ∙ processed_of-drop_processed excess es in
    (
      ap pending_of (prune_to-eq-drop_processed max_processed_approvals es)
          ∙ pending_of-drop_processed excess es,
      kept,
      rw kept (omega (arith, length-drop excess (processed_of es))),
    )
