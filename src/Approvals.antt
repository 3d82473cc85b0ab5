-- ===== src/Approvals.antt =====
-- The approval queue of src/main.py: its entries, the search by id, and the pruning and saving
-- that follow every change. All of it runs under `approval_lock`.
pub mod Prune
pub mod Find
pub mod Changes
mod Tests
use auto_heal.Prelude.{Bool, List, Option, String, [], if◌then◌else◌, none, some, ◌++◌, ◌==◌, ◌∷◌}
use auto_heal.Approvals.Prune.{Approval, prune}

-- `APPROVALS_STATE_PATH`, as reading it at startup gives it.
pub data QueueFile : Type 0 where
  missing unreadable not_a_list : QueueFile
  holds : List Approval → QueueFile

pub record Queue : Type 0 where
  pub entries : List Approval
  pub state_file : QueueFile

-- `_load_approval_queue`, into the empty queue of a new process
unfoldable pub load : QueueFile → Queue
load (holds entries) = record { entries = entries; state_file = holds entries }
load file = record { entries = []; state_file = file }

-- `_save_approval_queue_locked`; `written` says that no `OSError` was raised
unfoldable pub save : Bool → Queue → Queue
save written q =
    let entries = prune q.entries in
    record { entries = entries; state_file = if written then holds entries else q.state_file }

-- `_find_approval_entry_locked`, `get_approval_entry`
unfoldable pub find : String → List Approval → Option Approval
find entry_id [] = none
find entry_id (e ∷ es) = if e.id == entry_id then some e else find entry_id es

-- A write to the fields of the entry that `find` gives, which the queue shares. An entry that was
-- pruned since is no longer in the queue, and the write does not reach it.
unfoldable pub modify : String → (Approval → Approval) → List Approval → List Approval
modify entry_id f [] = []
modify entry_id f (e ∷ es) = if e.id == entry_id then f e ∷ es else e ∷ modify entry_id f es

-- `approval_queue.append(entry)`, and the save
unfoldable pub append : Bool → Approval → Queue → Queue
unfolding save
append written e q = save written (record q { entries = q.entries ++ e ∷ [] })

-- The writes to one entry, and the save
unfoldable pub write : Bool → String → (Approval → Approval) → Queue → Queue
unfolding save modify
write written entry_id f q = save written (record q { entries = modify entry_id f q.entries })
