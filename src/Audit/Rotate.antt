-- ===== src/Audit/Rotate.antt =====
-- Rotation and retention of the audit log: `append`, `_should_rotate_locked`, `_maybe_rotate_locked`
-- and `_sweep_retention_locked` of src/audit.py.
pub mod Names
pub mod Laws
pub mod Reach
use mathlib.Core.Option
use auto_heal.Prelude.{
  Bool, List, Option, String, [], contains, eqb, false, if◌then◌else◌, is_nonzero, leb, length, ltb,
  map, negsuc, none, not, pos, some, suc, true, zero, ℕ, ℤ, ◌&&◌, ◌*◌, ◌++◌, ◌+◌, ◌<>◌, ◌==◌, ◌∷◌,
}
use auto_heal.Value.{
  Fields, Items, Value, arr, as_int, cons, end, field, flag_at, get, get_or, nil, null, str, truthy,
}
use auto_heal.Audit.{Line, blank, entry, no_object, not_json, write}

-- A file beside the log whose name is the log's with a dot and a suffix, and when it was written
pub record Archive : Type 0 where
  pub file_name : String
  pub lines : List Line
  pub mtime : ℕ

-- The log's file, where it exists, and its archives in the order of the directory
pub record Store : Type 0 where
  pub log : Option (List Line)
  pub mtime : ℕ
  pub archives : List Archive

-- `datetime.fromisoformat`: no ISO text, a time without an offset, or a time in milliseconds
pub data Parsed : Type 0 where
  no_iso naive : Parsed
  aware : ℕ → Parsed

-- What one append finds: the log's name, the time in milliseconds and as the two texts, the size of
-- a file in bytes, the reading of a time, the files that can be
-- removed, and a number's digits.
pub record Disk : Type 0 where
  pub base : String
  pub now : ℕ
  pub compact_now : String
  pub iso_now : String
  pub size : List Line → ℕ
  pub parse_time : String → Parsed
  pub removable : String → Bool
  pub digits : ℕ → String

abbrev pub day_ms : ℕ
day_ms = 86400000

-- `_read_first_entry_timestamp` over the lines read so far: none but blank ones, its result, or an
-- exception: an AttributeError that it does not catch, or the TypeError where the caller subtracts a
-- time without an offset
pub data First : Type 0 where
  unread : First
  stamped : Option ℕ → First
  raising : First

abbrev of_parsed : Parsed → First
of_parsed no_iso = stamped none
of_parsed naive = raising
of_parsed (aware at) = stamped (some at)

abbrev stamp_of : Disk → Option Value → First
stamp_of d none = stamped none
stamp_of d (some (str ts)) = if ts == "" then stamped none else of_parsed (d.parse_time ts)
stamp_of d (some v) = if truthy v then raising else stamped none

abbrev first_of : Disk → Line → First
first_of d blank = unread
first_of d not_json = stamped none
first_of d no_object = raising
first_of d (entry f) = stamp_of d (get "timestamp" f)

abbrev pub or_first : First → First → First
or_first unread r = r
or_first r _ = r

-- `_read_first_entry_timestamp`, oldest line first
unfoldable pub first_stamp : Disk → List Line → First
unfolding get
first_stamp d [] = unread
first_stamp d (l ∷ older) = or_first (first_stamp d older) (first_of d l)

-- A limit from the configuration is reached: `limit and amount >= limit`. A missing or zero one
-- never is.
abbrev reaches : ℕ → Option ℤ → Bool
reaches amount none = false
reaches amount (some (pos n)) = not (eqb n 0) && leb n amount
reaches amount (some (negsuc n)) = true

-- `now - at >= timedelta(days=days)`
abbrev is_aged : ℕ → ℕ → ℤ → Bool
is_aged now at (pos n) = leb (at + n * day_ms) now
is_aged now at (negsuc n) = leb at (now + suc n * day_ms)

-- `timedelta(days=days)` does not overflow.
abbrev is_timedelta : ℤ → Bool
is_timedelta (pos n) = leb n 999999999
is_timedelta (negsuc n) = ltb n 999999999

-- The time that many days before `now` is within the years 1 to 9999.
abbrev pub has_cutoff : ℕ → ℤ → Bool
has_cutoff now (pos days) = leb (days * day_ms) (now + 719162 * day_ms)
has_cutoff now (negsuc n) = ltb (now + suc n * day_ms) (2932897 * day_ms)

-- `None` and 0 are falsy.
abbrev pub given_days : Option ℤ → Option ℤ
given_days none = none
given_days (some days) = if is_nonzero days then some days else none

pub data Rotation : Type 0 where
  rotate keep fail : Rotation

abbrev age_test : ℕ → ℤ → First → Rotation
age_test now days (stamped (some at)) =
    if not (is_timedelta days) then fail else if is_aged now at days then rotate else keep
age_test now days raising = fail
age_test now days _ = keep

abbrev by_age : Disk → List Line → Option ℤ → Rotation
by_age d lines none = keep
by_age d lines (some days) = age_test d.now days (first_stamp d lines)

abbrev pub int_of : String → Fields → Option ℤ
int_of k cfg = as_int (get_or k null cfg)

-- `_should_rotate_locked`
unfoldable pub should_rotate : Disk → Fields → Option (List Line) → Rotation
unfolding first_stamp
should_rotate d cfg none = keep
should_rotate d cfg (some lines) =
    if not (flag_at "enabled" cfg)
    then keep
    else if reaches (d.size lines) (int_of "max_bytes" cfg)
    then rotate
    else by_age d lines (given_days (int_of "rotate_interval_days" cfg))

-- The name after `suffix` rounds of the search
abbrev pub candidate : Disk → ℕ → String
candidate d zero = d.base <> ("." <> d.compact_now)
candidate d (suc n) = d.base <> ("." <> (d.compact_now <> ("-" <> d.digits (suc n))))

abbrev pub names_of : List Archive → List String
names_of = map (λ a. a.file_name)

-- `while os.path.exists(archived_path)`; `none` where the fuel runs out
unfoldable pub free_name : ℕ → Disk → List String → ℕ → Option String
free_name zero d names suffix = none
free_name (suc fuel) d names suffix =
    let more = free_name fuel d names (suc suffix) in
    if contains (candidate d suffix) names then more else some (candidate d suffix)

-- `mtime < cutoff`
abbrev pub is_expired : ℕ → ℤ → Archive → Bool
is_expired now (pos days) a = ltb (a.mtime + days * day_ms) now
is_expired now (negsuc n) a = ltb a.mtime (now + suc n * day_ms)

abbrev pub is_swept : Disk → ℤ → Archive → Bool
is_swept d days a = is_expired d.now days a && d.removable a.file_name

-- The loop of `_sweep_retention_locked`: the archives that stay, and the names of the others
unfoldable pub sweep : Disk → ℤ → List Archive → List Archive × List String
sweep d days [] = ([], [])
sweep d days (a ∷ archives) =
    let rest = sweep d days archives in
    if is_swept d days a then (rest.0, a.file_name ∷ rest.1) else (a ∷ rest.0, rest.1)

-- `_sweep_retention_locked`; `none` where the cutoff overflows, which raises
unfoldable pub sweep_retention : Disk → Fields → List Archive → Option (List Archive × List String)
unfolding sweep
sweep_retention d cfg archives = elim (given_days (int_of "retention_days" cfg)) [
  | none ↦ some (archives, [])
  | some days ↦ if has_cutoff d.now days then some (sweep d days archives) else none
]

abbrev pub texts : List String → Items
texts [] = nil
texts (s ∷ names) = cons (str s) (texts names)

-- The first entry of the new segment
abbrev pub rotation_entry : Disk → String → List String → Fields
rotation_entry d archived_path deleted = field "action" (str "audit_log_rotation") (
    field "user" (str "system") (
      field "role" (str "system") (
        field "timestamp" (str d.iso_now) (
          field "rotated_from" (str archived_path)
            (field "deleted_archives" (arr (texts deleted)) end)))))

abbrev pub lines_of : Option (List Line) → List Line
lines_of none = []
lines_of (some lines) = lines

-- `os.rename` of the log
abbrev pub archived : Store → String → Archive
archived s archived_path = record {
  file_name = archived_path;
  lines = lines_of s.log;
  mtime = s.mtime;
}

module _ (hash_entry : Fields → String) where
  -- The new segment
  abbrev pub segment : Disk → String → List Archive × List String → Store
  segment d archived_path swept = record {
    log = some (write hash_entry (rotation_entry d archived_path swept.1) []);
    mtime = d.now;
    archives = swept.0;
  }

  -- The rotation to a name; `none` where it raises, after `os.rename`
  abbrev pub rotated : Disk → Fields → Store → String → Option Store
  rotated d cfg s archived_path =
      Option.map (segment d archived_path)
        (sweep_retention d cfg (s.archives ++ archived s archived_path ∷ []))

  abbrev pub rotated_to : Disk → Fields → Store → Option String → Option Store
  rotated_to d cfg s none = none
  rotated_to d cfg s (some archived_path) = rotated d cfg s archived_path

  -- `_maybe_rotate_locked`; `none` where it raises. The search for a name has a round for each
  -- archive and one more.
  unfoldable pub maybe_rotate : Disk → Fields → Store → Option Store
  unfolding should_rotate free_name sweep_retention
  maybe_rotate d cfg s = elim (should_rotate d cfg s.log) [
    | keep ↦ some s
    | fail ↦ none
    | rotate ↦ rotated_to d cfg s (free_name (suc (length s.archives)) d (names_of s.archives) 0)
  ]

  -- `_write_locked` on the file
  abbrev pub written : Disk → Fields → Store → Store
  written d f s = record s { log = some (write hash_entry f (lines_of s.log)); mtime = d.now }

  -- `append`
  unfoldable pub append : Disk → Fields → Fields → Store → Option Store
  append d cfg f s = Option.map (written d f) (maybe_rotate d cfg s)
