-- ===== src/Approvals/Changes/Laws.antt =====
-- Every change of the queue is a move of the machine for every id.
use auto_heal.Prelude.{
  Bool, Bool-cases, List, Option, String, [], ap, arith, contains, false, if◌then◌else◌, inl, inr,
  length, none, refl, some, suc, sym, true, zero, ℕ, ◌++◌, ◌-◌, ◌==◌, ◌∷◌, ◌≡◌, ◌⊎◌,
}
use auto_heal.Approvals.Prune.{
  Approval, Status, approved, is_pending, max_processed_approvals, pending, prune, rejected,
}
use auto_heal.Approvals.Prune.Laws.{drop_processed, processed_of, prune_to-eq-drop_processed}
use auto_heal.Approvals.{Queue, append, find, modify, save, write}
use auto_heal.Approvals.Find.{
  KeepsId, NodupIds, awaits, find-drop_processed, find-modify, find_unused-drop_processed,
  modify-NodupIds, on_found,
}
use auto_heal.Approvals.Changes.{
  Change, Decides, Drops, IsClosed, Moves, approves, arrives, drops_approved, drops_rejected, fails,
  keeps, moves, queued, rejects, status_at, status_of, stays, unchanged, written,
}

find-prune :
    (id : String) (es : List Approval)
    → NodupIds es
    → (find id (prune es) ≡ find id es) ⊎ ((find id (prune es) ≡ none) × (awaits id es ≡ false))
unfolding prune
find-prune id es h =
    rw (prune_to-eq-drop_processed max_processed_approvals es)
      (find-drop_processed (length (processed_of es) - max_processed_approvals) id es h)

dropped_status :
    (o : Option Approval)
    → (elim o [ none ↦ false | some e ↦ is_pending e ]) ≡ false
    → Drops (status_of o) none
dropped_status none h = keeps none
dropped_status (some e) h =
    elim (e.status)
        as (λ v. (elim v [ pending ↦ true | _ ↦ false ]) ≡ false → Drops (some v) none) [
          | pending ↦ λ h'. cc h'
          | approved ↦ λ h'. drops_approved
          | rejected ↦ λ h'. drops_rejected
        ]
      h

prune-Drops :
    (id : String) (es : List Approval)
    → NodupIds es
    → Drops (status_of (find id es)) (status_of (find id (prune es)))
unfolding awaits
prune-Drops id es h = elim (find-prune id es h) [
  | inl same ↦ rw same (keeps (status_of (find id es)))
  | inr (gone, processed) ↦ rw gone (dropped_status (find id es) processed)
]

NodupIds-drop_processed :
    (n : ℕ) (es : List Approval) → NodupIds es → NodupIds (drop_processed n es)
unfolding drop_processed
NodupIds-drop_processed zero es h = h
NodupIds-drop_processed (suc n) [] h = tt
NodupIds-drop_processed (suc n) (e ∷ es) h = elim (Bool-cases (is_pending e)) [
  | inl waits ↦
      rw (waits, drop_processed)
        (find_unused-drop_processed (suc n) e.id es h.0, NodupIds-drop_processed (suc n) es h.1)
  | inr done ↦ rw (done, drop_processed) (NodupIds-drop_processed n es h.1)
]

NodupIds-prune : (es : List Approval) → NodupIds es → NodupIds (prune es)
unfolding prune
NodupIds-prune es h =
    rw (prune_to-eq-drop_processed max_processed_approvals es)
      (NodupIds-drop_processed (length (processed_of es) - max_processed_approvals) es h)

find-modify_other :
    (id j : String) (f : Approval → Approval) (es : List Approval)
    → KeepsId f
    → (id == j) ≡ false
    → find j (modify id f es) ≡ find j es
unfolding find modify
find-modify_other id j f [] k h = refl
find-modify_other id j f (e ∷ es) k h = ground (arith, k e, find-modify_other id j f es k)

find_snoc :
    (j : String) (e : Approval) (es : List Approval)
    → find j (es ++ e ∷ [])
      ≡ elim (find j es) [ none ↦ if e.id == j then some e else none | some x ↦ some x ]
unfolding find
find_snoc j e [] = refl
find_snoc j e (x ∷ es) = ground (arith, find_snoc j e es)

NodupIds_snoc :
    (e : Approval) (es : List Approval)
    → NodupIds es
    → find e.id es ≡ none
    → NodupIds (es ++ e ∷ [])
unfolding find
NodupIds_snoc e [] h new = (refl, tt)
NodupIds_snoc e (x ∷ es) h new =
    (ground (arith, find_snoc x.id e es), NodupIds_snoc e es h.1 (ground arith))

status_of-on_found :
    (f : Approval → Approval) (o : Option Approval)
    → ((e : Approval) → o ≡ some e → Decides (some e.status) (some (f e).status))
    → Decides (status_of o) (status_of (on_found f o))
status_of-on_found f none h = stays none
status_of-on_found f (some e) h = h e refl

modify-Decides :
    (id j : String) (f : Approval → Approval) (es : List Approval)
    → KeepsId f
    → ((e : Approval) → find id es ≡ some e → Decides (some e.status) (some (f e).status))
    → Decides (status_of (find j es)) (status_of (find j (modify id f es)))
modify-Decides id j f es k h = elim (Bool-cases (id == j)) [
  | inl same ↦
      let e : j ≡ id = ground arith in
      rw e (rw (find-modify id f es k) (status_of-on_found f (find id es) h))
  | inr other ↦ rw (find-modify_other id j f es k other) (stays (status_of (find j es)))
]

-- A decision, and then the pruning
abbrev Decided : Option Status → Option Status → Type 0
Decided v w = (u : Option Status) × Decides v u × Drops u w

write-Decided :
    (ok : Bool) (id j : String) (f : Approval → Approval) (q : Queue)
    → NodupIds q.entries
    → KeepsId f
    → ((e : Approval) → find id q.entries ≡ some e → Decides (some e.status) (some (f e).status))
    → Decided (status_at j q) (status_at j (write ok id f q))
unfolding write save
write-Decided ok id j f q distinct k h =
    let es = modify id f q.entries in
    (
      status_of (find j es),
      modify-Decides id j f q.entries k h,
      prune-Drops j es (modify-NodupIds id f q.entries k distinct),
    )

-- A queue stays without double ids.
pub Change-NodupIds :
    (ok : Bool) (known : List String) (q r : Queue)
    → Change ok known q r
    → NodupIds q.entries
    → NodupIds r.entries
unfolding write append save
Change-NodupIds ok known q r (unchanged e) h = rw e h
Change-NodupIds ok known q r (written id f k d e) h =
    rw e (NodupIds-prune (modify id f q.entries) (modify-NodupIds id f q.entries k h))
Change-NodupIds ok known q r (queued x waits new unknown e) h =
    rw e (NodupIds-prune (q.entries ++ x ∷ []) (NodupIds_snoc x q.entries h new))

pending_stays : (v w : Option Status) → Drops v w → v ≡ some pending → w ≡ some pending
pending_stays v w (keeps u) e = e
pending_stays v w drops_approved e = cc e
pending_stays v w drops_rejected e = cc e

append-arrives :
    (ok : Bool) (e : Approval) (q : Queue)
    → NodupIds q.entries
    → e.status ≡ pending
    → find e.id q.entries ≡ none
    → status_at e.id (append ok e q) ≡ some pending
unfolding append save
append-arrives ok e q distinct waits new =
    let es = q.entries ++ e ∷ [] in
    let found : find e.id es ≡ some e = rw (find_snoc e.id e q.entries) (ground arith) in
    let drops = prune-Drops e.id es (NodupIds_snoc e q.entries distinct new) in
    pending_stays (status_of (find e.id es)) (status_of (find e.id (prune es))) drops
      (rw found (ap some waits))

append_elsewhere :
    (ok : Bool) (j : String) (e : Approval) (q : Queue)
    → NodupIds q.entries
    → find e.id q.entries ≡ none
    → (e.id == j) ≡ false
    → Drops (status_at j q) (status_at j (append ok e q))
unfolding append save
append_elsewhere ok j e q distinct new other =
    let es = q.entries ++ e ∷ [] in
    let same : find j es ≡ find j q.entries = ground (arith, find_snoc j e q.entries) in
    rw (sym same) (prune-Drops j es (NodupIds_snoc e q.entries distinct new))

-- Every change moves every id's status as the machine does.
pub Change-Moves :
    (ok : Bool) (known : List String) (q r : Queue)
    → Change ok known q r
    → NodupIds q.entries
    → (j : String) → Moves (status_at j q) (status_at j r)
Change-Moves ok known q r (unchanged e) h j =
    rw e (moves (status_at j q) (stays (status_at j q)) (keeps (status_at j q)))
Change-Moves ok known q r (written id f k d e) h j =
    let (u, decides, drops) = write-Decided ok id j f q h k d in rw e (moves u decides drops)
Change-Moves ok known q r (queued x waits new unknown e) h j = elim (Bool-cases (x.id == j)) [
  | inl same ↦
      let e' : j ≡ x.id = ground arith in
      rw e (rw e' (rw new (rw (append-arrives ok x q h waits new) arrives)))
  | inr other ↦
      rw e (moves (status_at j q) (stays (status_at j q)) (append_elsewhere ok j x q h new other))
]

Decides-IsClosed : (v u : Option Status) → Decides v u → IsClosed v → IsClosed u
Decides-IsClosed v u (stays w) h = h
Decides-IsClosed v u approves h = λ e. cc e
Decides-IsClosed v u rejects h = λ e. cc e
Decides-IsClosed v u fails h = λ e. cc e

Drops-IsClosed : (v u : Option Status) → Drops v u → IsClosed v → IsClosed u
Drops-IsClosed v u (keeps w) h = h
Drops-IsClosed v u drops_approved h = λ e. cc e
Drops-IsClosed v u drops_rejected h = λ e. cc e

-- What is known and does not wait never waits again.
pub Change-IsClosed :
    (ok : Bool) (known : List String) (q r : Queue)
    → Change ok known q r
    → NodupIds q.entries
    → (j : String) → contains j known ≡ true
    → IsClosed (status_at j q)
    → IsClosed (status_at j r)
Change-IsClosed ok known q r (unchanged e) h j is_known closed = rw e closed
Change-IsClosed ok known q r (written id f k d e) h j is_known closed =
    let (u, decides, drops) = write-Decided ok id j f q h k d in
    rw e (
      Drops-IsClosed u (status_at j (write ok id f q)) drops
        (Decides-IsClosed (status_at j q) u decides closed))
Change-IsClosed ok known q r (queued x waits new unknown e) h j is_known closed =
    let other : (x.id == j) ≡ false = ground arith in
    rw e (
      Drops-IsClosed (status_at j q) (status_at j (append ok x q))
        (append_elsewhere ok j x q h new other) closed)
