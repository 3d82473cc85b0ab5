-- ===== src/Audit/Tail/Laws.antt =====
-- The chunked read against a forward reading of the file, line by line.
use mathlib.Core.Path.{subst}
use native.Mathlib.Nat.{zero-add, suc-add}
use auto_heal.Prelude.{
  Bool-cases, List, Option, [], ap, arith, drop, eqb, false, if◌then◌else◌, inl, inr, length, min,
  none, refl, some, suc, sym, take, true, zero, ℕ, ◌&&◌, ◌++◌, ◌+◌, ◌-◌, ◌<◌, ◌∙◌, ◌∷◌, ◌≡◌,
}
use auto_heal.Audit.Tail.{
  Bytes, after_last_newline, has_newline, is_empty, newline, read_back, read_last_line,
  rstrip_newlines, whole,
}

abbrev prefix_line : ℕ → List Bytes → List Bytes
prefix_line b [] = (b ∷ []) ∷ []
prefix_line b (l ∷ ls) = if eqb b newline then [] ∷ l ∷ ls else (b ∷ l) ∷ ls

-- The lines of a file, without their newlines
unfoldable pub lines : Bytes → List Bytes
lines [] = [] ∷ []
lines (b ∷ bs) = prefix_line b (lines bs)

abbrev or_else : Option Bytes → Option Bytes → Option Bytes
or_else none o = o
or_else (some l) o = some l

-- The last line that is not empty
unfoldable pub last_filled : List Bytes → Option Bytes
last_filled [] = none
last_filled (l ∷ ls) = or_else (last_filled ls) (whole l)

-- What the stripped file says of its lines: the last filled one comes after its last newline, or
-- the first line is all that there is.
data Ends (stripped : Bytes) : List Bytes → Type 0 where
  later :
      (l : Bytes) (ls : List Bytes)
      → has_newline stripped ≡ true
      → last_filled ls ≡ some (after_last_newline stripped)
      → Ends stripped (l ∷ ls)
  first :
      (l : Bytes) (ls : List Bytes)
      → has_newline stripped ≡ false
      → last_filled ls ≡ none
      → stripped ≡ l
      → Ends stripped (l ∷ ls)

-- One byte before a stripped text
abbrev prefix_byte : ℕ → Bytes → Bytes
prefix_byte b stripped = if is_empty stripped && eqb b newline then [] else b ∷ stripped

Ends-prefix :
    (b : ℕ) (stripped : Bytes) (ls : List Bytes)
    → Ends stripped ls
    → Ends (prefix_byte b stripped) (prefix_line b ls)
unfolding has_newline after_last_newline last_filled
Ends-prefix b [] ls (later l ls' h k) = absurd (cc h)
Ends-prefix b (c ∷ cs) ls (later l ls' h k) = elim (Bool-cases (eqb b newline)) [
  | inl nl ↦ rw nl (later [] (l ∷ ls') (ground arith) (ground arith))
  | inr no_nl ↦ rw no_nl (later (b ∷ l) ls' (ground arith) (ground arith))
]
Ends-prefix b [] ls (first l ls' h k same) = elim (Bool-cases (eqb b newline)) [
  | inl nl ↦ rw nl (first [] (l ∷ ls') refl (ground arith) refl)
  | inr no_nl ↦ rw no_nl (first (b ∷ l) ls' (ground arith) (ground arith) (ground arith))
]
Ends-prefix b (c ∷ cs) ls (first l ls' h k same) = elim (Bool-cases (eqb b newline)) [
  | inl nl ↦ rw nl (later [] (l ∷ ls') (ground arith) (ground arith))
  | inr no_nl ↦ rw no_nl (first (b ∷ l) ls' (ground arith) (ground arith) (ground arith))
]

Ends-lines : (file : Bytes) → Ends (rstrip_newlines file) (lines file)
unfolding lines rstrip_newlines has_newline last_filled
Ends-lines [] = first [] [] refl refl refl
Ends-lines (b ∷ bs) = Ends-prefix b (rstrip_newlines bs) (lines bs) (Ends-lines bs)

-- The result that the rounds come to
abbrev ending : Bytes → Option Bytes
ending stripped =
    if has_newline stripped then some (after_last_newline stripped) else whole stripped

ending-last_filled :
    (stripped : Bytes) (ls : List Bytes) → Ends stripped ls → ending stripped ≡ last_filled ls
unfolding last_filled
ending-last_filled stripped ls (later l ls' h k) = ground arith
ending-last_filled stripped ls (first l ls' h k same) = ground arith

-- What stands before a text with a newline does not change its end.
ending-prefix :
    (b : ℕ) (stripped : Bytes)
    → has_newline stripped ≡ true
    → (has_newline (prefix_byte b stripped) ≡ true)
      × (after_last_newline (prefix_byte b stripped) ≡ after_last_newline stripped)
unfolding has_newline after_last_newline
ending-prefix b [] h = absurd (cc h)
ending-prefix b (c ∷ cs) h = (ground arith, ground arith)

ending-append :
    (before read : Bytes)
    → has_newline (rstrip_newlines read) ≡ true
    → (has_newline (rstrip_newlines (before ++ read)) ≡ true)
      × (after_last_newline (rstrip_newlines (before ++ read))
          ≡ after_last_newline (rstrip_newlines read))
unfolding rstrip_newlines
ending-append [] read h = (h, refl)
ending-append (b ∷ before) read h =
    let rest = ending-append before read h in
    let step = ending-prefix b (rstrip_newlines (before ++ read)) rest.0 in
    (step.0, step.1 ∙ rest.1)

take-append-drop : (n : ℕ) (file : Bytes) → take n file ++ drop n file ≡ file
take-append-drop zero file = refl
take-append-drop (suc n) [] = refl
take-append-drop (suc n) (b ∷ file) = ap (λ bs. b ∷ bs) (take-append-drop n file)

take-drop : (n m : ℕ) (file : Bytes) → take m (drop n file) ++ drop (n + m) file ≡ drop n file
take-drop zero m file = rw zero-add (take-append-drop m file)
take-drop (suc n) zero [] = rw suc-add refl
take-drop (suc n) (suc m) [] = rw suc-add refl
take-drop (suc n) m (b ∷ file) = rw suc-add (take-drop n m file)

-- One round reads the file from its new position on.
round_reads :
    (chunk_size at : ℕ) (file : Bytes)
    → take (min chunk_size at) (drop (at - min chunk_size at) file) ++ drop at file
      ≡ drop (at - min chunk_size at) file
round_reads chunk_size at file =
    let n = at - min chunk_size at in
    let e : at ≡ n + min chunk_size at = ground arith in
    subst (λ k. take (min chunk_size at) (drop n file) ++ drop k file ≡ drop n file) (sym e)
      (take-drop n (min chunk_size at) file)

ending_found :
    (n : ℕ) (file : Bytes)
    → has_newline (rstrip_newlines (drop n file)) ≡ true
    → ending (rstrip_newlines file) ≡ some (after_last_newline (rstrip_newlines (drop n file)))
ending_found n file h =
    let found = ending-append (take n file) (drop n file) h in
    let e = ap rstrip_newlines (take-append-drop n file) in
    ground (arith, found, ap has_newline e, ap after_last_newline e)

-- What a round returns, if the rounds after it return the ending
round-ending :
    (at : ℕ) (file : Bytes) (more : Option (Option Bytes))
    → (0 < at → more ≡ some (ending (rstrip_newlines file)))
    → (if has_newline (rstrip_newlines (drop at file))
        then some (some (after_last_newline (rstrip_newlines (drop at file))))
        else if eqb at 0
        then some (whole (rstrip_newlines (drop at file)))
        else more)
      ≡ some (ending (rstrip_newlines file))
round-ending at file more h = elim (Bool-cases (has_newline (rstrip_newlines (drop at file)))) [
  | inl found ↦ rw found (ap some (sym (ending_found at file found)))
  | inr no_newline ↦ rw no_newline (start at no_newline h)
]
  where
    start :
        (n : ℕ)
        → has_newline (rstrip_newlines (drop n file)) ≡ false
        → (0 < n → more ≡ some (ending (rstrip_newlines file)))
        → (if eqb n 0 then some (whole (rstrip_newlines (drop n file))) else more)
          ≡ some (ending (rstrip_newlines file))
    start zero none_there h' = rw none_there refl
    start (suc n) none_there h' =
        let left : eqb (suc n) 0 ≡ false = ground arith in rw left (h' (omega arith))

read_back-ending :
    (fuel chunk_size at : ℕ) (file read : Bytes)
    → at < fuel
    → 0 < at
    → 0 < chunk_size
    → read ≡ drop at file
    → read_back fuel chunk_size file at read ≡ some (ending (rstrip_newlines file))
unfolding read_back
read_back-ending zero chunk_size at file read enough positive chunk same = absurd (omega arith)
read_back-ending (suc fuel) chunk_size at file read enough positive chunk same =
    let at' = at - min chunk_size at in
    let more = read_back fuel chunk_size file at' (drop at' file) in
    let nonzero : eqb at 0 ≡ false = ground arith in
    rw nonzero (
      rw same (
        rw (round_reads chunk_size at file) (
          round-ending at' file more (λ left.
            read_back-ending fuel chunk_size at' file (drop at' file) (omega arith) left chunk
              refl))))

drop_all : (file : Bytes) → drop (length file) file ≡ []
drop_all [] = refl
drop_all (b ∷ file) = drop_all file

-- Whatever the size of the chunks, reading backward comes to an end within its rounds, and gives the
-- last line of the file that is not empty, or nothing if every line is empty.
pub read_last_line-eq-last_filled :
    (chunk_size : ℕ) (file : Bytes)
    → 0 < chunk_size
    → read_last_line chunk_size file ≡ some (last_filled (lines file))
unfolding read_last_line lines last_filled
read_last_line-eq-last_filled chunk_size [] chunk = refl
read_last_line-eq-last_filled chunk_size (b ∷ bs) chunk =
    read_back-ending (suc (length (b ∷ bs))) chunk_size (length (b ∷ bs)) (b ∷ bs) [] (omega arith)
      (omega arith) chunk (sym (drop_all (b ∷ bs)))
    ∙ ap some (ending-last_filled (rstrip_newlines (b ∷ bs)) (lines (b ∷ bs)) (Ends-lines (b ∷ bs)))
