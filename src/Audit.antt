-- ===== src/Audit.antt =====
-- `AuditChain._write_locked` and `verify_chain` of src/audit.py.
pub mod Tamper
pub mod Tail
pub mod Rotate
pub mod Ship
pub mod Laws
pub mod Tests
use auto_heal.Prelude.{
  Bool, List, Option, String, [], eqb, false, if◌then◌else◌, length, negsuc, none, not, pos, some,
  suc, ℕ, ℤ, ◌&&◌, ◌++◌, ◌-◌, ◌==◌, ◌∷◌,
}
use auto_heal.Value.{Fields, as_int, end, field, get_or, has, null, num, put, str, text_at}

-- A line of the log without its white space, and what `json.loads` makes of it. A log is the list
-- of its lines, the newest first.
pub data Line : Type 0 where
  blank : Line
  not_json : Line
  -- JSON that is no object, on which `entry.keys()` raises
  no_object : Line
  entry : Fields → Line

abbrev pub genesis_hash : String
genesis_hash = "0000000000000000000000000000000000000000000000000000000000000000"

-- `_read_last_line`: the newest line that is not empty
unfoldable pub last_line : List Line → Option Line
last_line [] = none
last_line (blank ∷ older) = last_line older
last_line (l ∷ older) = some l

abbrev pub int_at : String → Fields → Option ℤ
int_at k f = as_int (get_or k null f)

abbrev pub state_of : Option ℤ → Option String → ℤ × String
state_of (some sequence) (some hash) = (sequence, hash)
state_of _ _ = (pos 0, genesis_hash)

-- `_current_state`. A sequence that is no number and a hash that is no text count as unreadable.
unfoldable pub current_state : List Line → ℤ × String
unfolding last_line
current_state log = elim (last_line log) [
  | some (entry f) ↦ state_of (int_at "sequence" f) (text_at "entry_hash" f)
  | _ ↦ (pos 0, genesis_hash)
]

-- `sequence + 1`
abbrev pub next : ℤ → ℤ
next (pos n) = pos (suc n)
next (negsuc n) = if eqb n 0 then pos 0 else negsuc (n - 1)

abbrev pub same_int : ℤ → ℤ → Bool
same_int (pos m) (pos n) = eqb m n
same_int (negsuc m) (negsuc n) = eqb m n
same_int _ _ = false

-- `{k: v for k, v in entry.items() if k != "entry_hash"}`
unfoldable pub without_key : String → Fields → Fields
without_key k end = end
without_key k (field j v f) = let rest = without_key k f in if j == k then rest else field j v rest

-- The links, before the entry's own hash
abbrev pub linked : ℤ × String → Fields → Fields
linked (sequence, hash) f = put "prev_hash" (str hash) (put "sequence" (num (next sequence)) f)

-- What `verify_chain` has so far: the counts, the boundaries and the last link, or where it stopped.
pub data Check : Type 0 where
  running : ℕ → ℕ → List ℕ → Option (ℤ × String) → Check
  broken : ℕ → Check
  raised : Check

abbrev pub is_text : String → Option String → Bool
is_text s none = false
is_text s (some t) = s == t

abbrev pub continues : ℤ → String → Option (ℤ × String) → Bool
continues sequence claimed none = false
continues sequence claimed (some (prev_sequence, prev_hash)) =
    same_int sequence (next prev_sequence) && claimed == prev_hash

abbrev pub grow : ℕ → List ℕ → Option (ℤ × String) → List ℕ
grow line_number boundaries none = boundaries
grow line_number boundaries (some prev) = boundaries ++ line_number ∷ []

-- The tests on the links of an entry whose hash is right
abbrev pub check_links :
    ℕ → ℕ → ℕ → List ℕ → Option (ℤ × String) → Option ℤ → Option String → String → Check
check_links line_number checked legacy boundaries prev (some sequence) (some claimed) hash =
    if same_int sequence (pos 1) && claimed == genesis_hash
    then running (suc checked) legacy (grow line_number boundaries prev) (some (sequence, hash))
    else if continues sequence claimed prev
    then running (suc checked) legacy boundaries (some (sequence, hash))
    else broken line_number
check_links line_number checked legacy boundaries prev _ _ hash = broken line_number

-- SHA-256 of the canonical JSON is a parameter.
module _ (hash_entry : Fields → String) where
  -- The entry that `_write_locked` returns
  unfoldable pub finalized : Fields → List Line → Fields
  unfolding current_state
  finalized f log =
      let chained = linked (current_state log) f in
      put "entry_hash" (str (hash_entry chained)) chained

  -- `_write_locked`
  unfoldable pub write : Fields → List Line → List Line
  unfolding finalized
  write f log = entry (finalized f log) ∷ log

  abbrev pub check_entry : ℕ → ℕ → ℕ → List ℕ → Option (ℤ × String) → Fields → Check
  check_entry line_number checked legacy boundaries prev f =
      if not (has "sequence" f && has "prev_hash" f && has "entry_hash" f)
      then running checked (suc legacy) boundaries prev
      else if is_text (hash_entry (without_key "entry_hash" f)) (text_at "entry_hash" f)
      then check_links line_number checked legacy boundaries prev (int_at "sequence" f)
          (text_at "prev_hash" f) (hash_entry (without_key "entry_hash" f))
      else broken line_number

  -- one line of the loop
  abbrev pub check_line : ℕ → Line → Check → Check
  check_line line_number l (broken at) = broken at
  check_line line_number l raised = raised
  check_line line_number blank (running n m b prev) = running n m b prev
  check_line line_number not_json (running n m b prev) = broken line_number
  check_line line_number no_object (running n m b prev) = raised
  check_line line_number (entry f) (running n m b prev) = check_entry line_number n m b prev f

  -- `verify_chain`, oldest line first
  unfoldable pub verify_chain : List Line → Check
  unfolding without_key
  verify_chain [] = running 0 0 [] none
  verify_chain (l ∷ older) = check_line (suc (length older)) l (verify_chain older)
