-- ===== src/Cooldown.antt =====
-- src/cooldown.py: when an action last ran, by key, kept in memory and in a state file. Times are
-- in milliseconds. Each method holds the lock throughout, and reads the clock once here.
pub mod Laws
mod Tests
use auto_heal.Prelude.{
  Bool, Option, String, [], eqb, if◌then◌else◌, ltb, none, some, ℕ, ◌*◌, ◌+◌, ◌-◌, ◌<>◌,
}
use auto_heal.Dict.{Dict, insert, lookup}
use auto_heal.Dict.Keys.{erase_all, keys_where}

abbrev pub max_cooldown_retention_ms : ℕ
max_cooldown_retention_ms = 24 * 60 * 60 * 1000

-- What reading the state file gives: no file, one that cannot be read or parsed, JSON that is no
-- dict, or the records.
pub data StateFile : Type 0 where
  missing unreadable not_a_dict : StateFile
  holds : Dict ℕ → StateFile

pub record Tracker : Type 0 where
  pub last_run : Dict ℕ
  pub state_file : StateFile

-- `make_key`; `dedup_value or ''`
unfoldable pub make_key : String → String → Option String → String
make_key event_type controller_name none = event_type <> ("|" <> (controller_name <> ("|" <> "")))
make_key event_type controller_name (some dedup) =
    event_type <> ("|" <> (controller_name <> ("|" <> dedup)))

-- `__init__` and `_load`
unfoldable pub load : StateFile → Tracker
load (holds records) = record { last_run = records; state_file = holds records }
load file = record { last_run = []; state_file = file }

-- `ts < time.time() - MAX_COOLDOWN_RETENTION_SECONDS`
abbrev pub is_stale : ℕ → ℕ → Bool
is_stale now ts = ltb (ts + max_cooldown_retention_ms) now

-- `_prune_locked`
unfoldable pub prune : ℕ → Dict ℕ → Dict ℕ
prune now last_run = erase_all (keys_where (is_stale now) last_run) last_run

-- `_save_locked`. `written` says that neither the write nor the rename raised an `OSError`; the
-- rename is the step that replaces the file.
unfoldable pub save : ℕ → Bool → Tracker → Tracker
unfolding prune
save now written t =
    let last_run = prune now t.last_run in
    record { last_run = last_run; state_file = if written then holds last_run else t.state_file }

abbrev remaining_at : ℕ → ℕ → Option ℕ → Option ℕ
remaining_at cooldown now none = none
remaining_at cooldown now (some last_run) =
    if ltb now (last_run + cooldown) then some (last_run + cooldown - now) else none

-- `seconds_remaining`: `cooldown - (now - last_run)` if that is positive
unfoldable pub seconds_remaining : String → ℕ → ℕ → Tracker → Option ℕ
seconds_remaining key cooldown now t =
    if eqb cooldown 0 then none else remaining_at cooldown now (lookup key t.last_run)

-- `record`
unfoldable pub record_run : String → ℕ → Bool → Tracker → Tracker
unfolding save
record_run key now written t = save now written (record t { last_run = insert key now t.last_run })
