-- ===== src/Approvals/Changes.antt =====
-- The life of an approval as a small machine, and the changes of the queue as its moves.
pub mod Laws
use auto_heal.Prelude.{Bool, List, Option, String, contains, false, none, some, ◌≡◌, ◌≢◌}
use auto_heal.Approvals.Prune.{Approval, Status, approved, pending, rejected}
use auto_heal.Approvals.{Queue, append, find, write}
use auto_heal.Approvals.Find.{KeepsId}

abbrev pub status_of : Option Approval → Option Status
status_of none = none
status_of (some e) = some e.status

-- The status of an id, `none` where the queue has no such entry
abbrev pub status_at : String → Queue → Option Status
status_at id q = status_of (find id q.entries)

-- What a decision makes of a status. An approved entry whose action has nothing to run is rejected.
pub data Decides : Option Status → Option Status → Type 0 where
  stays : (v : Option Status) → Decides v v
  approves : Decides (some pending) (some approved)
  rejects : Decides (some pending) (some rejected)
  fails : Decides (some approved) (some rejected)

-- What the pruning at a save makes of a status
pub data Drops : Option Status → Option Status → Type 0 where
  keeps : (v : Option Status) → Drops v v
  drops_approved : Drops (some approved) none
  drops_rejected : Drops (some rejected) none

-- A move: an entry arrives and is pending, or it is decided, and then perhaps dropped.
pub data Moves : Option Status → Option Status → Type 0 where
  arrives : Moves none (some pending)
  moves :
      {v : Option Status}
      → (u : Option Status) → {w : Option Status} → Decides v u
      → Drops u w
      → Moves v w

-- The changes of the queue; `ok` says whether the save went through. An entry arrives under an id that is neither in the queue nor known from
-- before.
pub data Change (ok : Bool) (known : List String) (q r : Queue) : Type 0 where
  unchanged : r ≡ q → Change ok known q r
  written :
      (id : String) (f : Approval → Approval)
      → KeepsId f
      → ((e : Approval) → find id q.entries ≡ some e → Decides (some e.status) (some (f e).status))
      → r ≡ write ok id f q
      → Change ok known q r
  queued :
      (e : Approval)
      → e.status ≡ pending
      → find e.id q.entries ≡ none
      → contains e.id known ≡ false
      → r ≡ append ok e q
      → Change ok known q r

-- The status is not pending.
abbrev pub IsClosed : Option Status → Type 0
IsClosed v = v ≢ some pending
