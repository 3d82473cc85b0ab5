-- ===== src/Approvals/Find.antt =====
-- The search by id after writes and pruning, for a queue whose ids are distinct.

use auto_heal.Prelude.{
  Bool, Bool-cases, List, Option, String, [], ap, arith, false, inl, inr, length, none, refl, some,
  suc, zero, ℕ, ◌-◌, ◌==◌, ◌∷◌, ◌≡◌, ◌⊎◌,
}
use auto_heal.Approvals.Prune.{Approval, is_pending, max_processed_approvals, prune}
use auto_heal.Approvals.Prune.Laws.{drop_processed, processed_of, prune_to-eq-drop_processed}
use auto_heal.Approvals.{Queue, find, modify, save, write}

-- No two entries have one id.
abbrev pub NodupIds : List Approval → Type 0
NodupIds [] = Unit
NodupIds (e ∷ es) = (find e.id es ≡ none) × NodupIds es

abbrev pub on_found : (Approval → Approval) → Option Approval → Option Approval
on_found f none = none
on_found f (some e) = some (f e)

abbrev pub KeepsId : (Approval → Approval) → Type 0
KeepsId f = (e : Approval) → (f e).id ≡ e.id

pub find-modify :
    (id : String) (f : Approval → Approval) (es : List Approval)
    → KeepsId f
    → find id (modify id f es) ≡ on_found f (find id es)
unfolding find modify
find-modify id f [] k = refl
find-modify id f (e ∷ es) k = ground (arith, k e, find-modify id f es k)

find-modify_ne :
    (id j : String) (f : Approval → Approval) (es : List Approval)
    → KeepsId f
    → find j es ≡ none
    → find j (modify id f es) ≡ none
unfolding find modify
find-modify_ne id j f [] k h = refl
find-modify_ne id j f (e ∷ es) k h = ground (arith, k e, find-modify_ne id j f es k)

pub modify-NodupIds :
    (id : String) (f : Approval → Approval) (es : List Approval)
    → KeepsId f
    → NodupIds es
    → NodupIds (modify id f es)
unfolding modify
modify-NodupIds id f [] k h = tt
modify-NodupIds id f (e ∷ es) k h = elim (Bool-cases (e.id == id)) [
  | inl same ↦ rw (same, modify) (rw (k e) h.0, h.1)
  | inr other ↦
      rw (other, modify) (find-modify_ne id e.id f es k h.0, modify-NodupIds id f es k h.1)
]

pub find_unused-drop_processed :
    (n : ℕ) (id : String) (es : List Approval)
    → find id es ≡ none
    → find id (drop_processed n es) ≡ none
unfolding find drop_processed
find_unused-drop_processed zero id es h = h
find_unused-drop_processed (suc n) id [] h = refl
find_unused-drop_processed (suc n) id (e ∷ es) h =
    ground (arith, find_unused-drop_processed (suc n) id es, find_unused-drop_processed n id es)

-- The entry of an id is there and pending.
unfoldable pub awaits : String → List Approval → Bool
awaits id es = elim (find id es) [ none ↦ false | some e ↦ is_pending e ]

-- The entry is where it was, or it has been pruned and was not pending.
pub find-drop_processed :
    (n : ℕ) (id : String) (es : List Approval)
    → NodupIds es
    → (find id (drop_processed n es) ≡ find id es)
      ⊎ ((find id (drop_processed n es) ≡ none) × (awaits id es ≡ false))
unfolding find drop_processed awaits
find-drop_processed zero id es h = inl refl
find-drop_processed (suc n) id [] h = inl refl
find-drop_processed (suc n) id (e ∷ es) h = ground (
  arith,
  find-drop_processed (suc n) id es h.1,
  find-drop_processed n id es h.1,
  find_unused-drop_processed n e.id es h.0,
)

-- After a write to the entry of an id, the search gives the written entry, or none if there was
-- none or the save has pruned it.
pub find-write :
    (written : Bool) (id : String) (f : Approval → Approval) (q : Queue)
    → KeepsId f
    → NodupIds q.entries
    → (find id (write written id f q).entries ≡ on_found f (find id q.entries))
      ⊎ (find id (write written id f q).entries ≡ none)
unfolding write save prune
find-write written id f q k h =
    let es = modify id f q.entries in
    let excess = length (processed_of es) - max_processed_approvals in
    ground (
      arith,
      ap (find id) (prune_to-eq-drop_processed max_processed_approvals es),
      find-modify id f q.entries k,
      find-drop_processed excess id es (modify-NodupIds id f q.entries k h),
    )

pub id-find : (id : String) (es : List Approval) (e : Approval) → find id es ≡ some e → e.id ≡ id
unfolding find
id-find id [] e h = cc
id-find id (x ∷ es) e h = ground (arith, id-find id es e)
