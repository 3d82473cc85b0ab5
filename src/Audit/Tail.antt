-- ===== src/Audit/Tail.antt =====
-- `_read_last_line` of src/audit.py: the read of a file's last line backward, in chunks.
pub mod Laws
use auto_heal.Prelude.{
  Bool, List, Option, [], drop, eqb, false, if◌then◌else◌, length, min, none, some, suc, take, true,
  zero, ℕ, ◌&&◌, ◌++◌, ◌-◌, ◌||◌, ◌∷◌,
}

abbrev pub Bytes : Type 0
Bytes = List ℕ

abbrev pub newline : ℕ
newline = 10

abbrev pub is_empty : Bytes → Bool
is_empty [] = true
is_empty (b ∷ bs) = false

-- `data.rstrip(b"\n")`
unfoldable pub rstrip_newlines : Bytes → Bytes
rstrip_newlines [] = []
rstrip_newlines (b ∷ bs) =
    let rest = rstrip_newlines bs in if is_empty rest && eqb b newline then [] else b ∷ rest

-- `b"\n" in data`
unfoldable pub has_newline : Bytes → Bool
has_newline [] = false
has_newline (b ∷ bs) = eqb b newline || has_newline bs

-- `data.rsplit(b"\n", 1)[-1]`, where there is a newline
unfoldable pub after_last_newline : Bytes → Bytes
unfolding has_newline
after_last_newline [] = []
after_last_newline (b ∷ bs) =
    let rest = after_last_newline bs in
    if has_newline bs then rest else if eqb b newline then bs else b ∷ bs

-- The answer once the start of the file is reached
abbrev pub whole : Bytes → Option Bytes
whole stripped = if is_empty stripped then none else some stripped

-- The rounds of `while pos > 0`; `none` where the fuel runs out. The inner option is the function's
-- result, before its text is decoded.
unfoldable pub read_back : ℕ → ℕ → Bytes → ℕ → Bytes → Option (Option Bytes)
unfolding rstrip_newlines after_last_newline
read_back zero chunk_size file at read = none
read_back (suc fuel) chunk_size file at read =
    let at' = at - min chunk_size at in
    let read' = take (min chunk_size at) (drop at' file) ++ read in
    let stripped = rstrip_newlines read' in
    let more = read_back fuel chunk_size file at' read' in
    if eqb at 0
    then some none
    else if has_newline stripped
    then some (some (after_last_newline stripped))
    else if eqb at' 0
    then some (whole stripped)
    else more

-- `_read_last_line`, for a file that exists. One more round than the file has bytes is enough.
unfoldable pub read_last_line : ℕ → Bytes → Option (Option Bytes)
unfolding read_back
read_last_line chunk_size file =
    if is_empty file
    then some none
    else read_back (suc (length file)) chunk_size file (length file) []
