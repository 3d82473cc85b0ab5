-- ===== src/Audit/Laws.antt =====
-- What verification says of a log that the program wrote.
use auto_heal.Prelude.{
  All, List, Option, String, String-discrete, [], ap, arith, length, none, pos, refl, some, suc,
  zero, ℕ, ℤ, ◌∙◌, ◌∷◌, ◌≡◌,
}
use auto_heal.Value.{Fields, Value, end, field, get, get-put, num, put, str}
use auto_heal.Audit.{
  Check, Line, check_entry, check_links, current_state, genesis_hash, last_line, linked, running,
  verify_chain, without_key, write,
}

without_key-put :
    (k : String) (v : Value) (f : Fields) → get k f ≡ none → without_key k (put k v f) ≡ f
unfolding without_key put get
without_key-put k v end h = ground arith
without_key-put k v (field j w f) h = ground (arith, without_key-put k v f)

get-linked :
    (n : ℕ) (hash : String) (f : Fields)
    → (get "sequence" (linked (pos n, hash) f) ≡ some (num (pos (suc n))))
      × (get "prev_hash" (linked (pos n, hash) f) ≡ some (str hash))
      × (get "entry_hash" (linked (pos n, hash) f) ≡ get "entry_hash" f)
unfolding String-discrete
get-linked n hash f =
    let inner = put "sequence" (num (pos (suc n))) f in
    (
      get-put "prev_hash" "sequence" (str hash) inner
          ∙ get-put "sequence" "sequence" (num (pos (suc n))) f,
      get-put "prev_hash" "prev_hash" (str hash) inner,
      get-put "prev_hash" "entry_hash" (str hash) inner
          ∙ get-put "sequence" "entry_hash" (num (pos (suc n))) f,
    )

-- The link that a log of `n` entries ends in
abbrev pub link : ℕ → String → Option (ℤ × String)
link zero hash = none
link (suc n) hash = some (pos (suc n), hash)

abbrev pub anchor : ℕ → String → String
anchor zero hash = genesis_hash
anchor (suc n) hash = hash

check_links-next :
    (line_number n : ℕ) (last hash : String)
    → check_links line_number n 0 [] (link n last) (some (pos (suc n))) (some (anchor n last)) hash
      ≡ running (suc n) 0 [] (some (pos (suc n), hash))
check_links-next line_number zero last hash = ground arith
check_links-next line_number (suc n) last hash = ground arith

-- What is reported of a log that is accepted: entries checked, legacy entries, boundaries
abbrev pub report_of : Check → Option (ℕ × ℕ × List ℕ)
report_of (running n m b prev) = some (n, m, b)
report_of _ = none

module _ (hash_entry : Fields → String) where
  -- the log of these entries, the newest first
  unfoldable pub write_all : List Fields → List Line
  write_all [] = []
  write_all (f ∷ fs) = write hash_entry f (write_all fs)

  abbrev stored : ℤ × String → Fields → Fields
  stored state f = put "entry_hash" (str (hash_entry (linked state f))) (linked state f)

  get-stored :
      (n : ℕ) (hash : String) (f : Fields)
      → (get "sequence" (stored (pos n, hash) f) ≡ some (num (pos (suc n))))
        × (get "prev_hash" (stored (pos n, hash) f) ≡ some (str hash))
        × (get "entry_hash" (stored (pos n, hash) f)
            ≡ some (str (hash_entry (linked (pos n, hash) f))))
  unfolding String-discrete
  get-stored n hash f =
      let chained = linked (pos n, hash) f in
      let own = str (hash_entry chained) in
      let links = get-linked n hash f in
      (
        get-put "entry_hash" "sequence" own chained ∙ links.0,
        get-put "entry_hash" "prev_hash" own chained ∙ links.1,
        get-put "entry_hash" "entry_hash" own chained,
      )

  check_entry-stored :
      (line_number n : ℕ) (last : String) (f : Fields)
      → get "entry_hash" f ≡ none
      → check_entry hash_entry line_number n 0 [] (link n last) (stored (pos n, anchor n last) f)
        ≡ running (suc n) 0 [] (some (pos (suc n), hash_entry (linked (pos n, anchor n last) f)))
  check_entry-stored line_number n last f own =
      let hash = anchor n last in
      let chained = linked (pos n, hash) f in
      let bare =
        without_key-put "entry_hash" (str (hash_entry chained)) chained
          ((get-linked n hash f).2 ∙ own) in
      ground
        (arith, bare, get-stored n hash f, check_links-next line_number n last (hash_entry chained))

  -- The end of a log and its verification agree.
  abbrev pub IsSound : ℕ → List Line → Type 0
  IsSound n log =
      (last : String) × (current_state log ≡ (pos n, anchor n last))
      × (verify_chain hash_entry log ≡ running n 0 [] (link n last))

  pub write-IsSound :
      (n : ℕ) (f : Fields) (log : List Line)
      → get "entry_hash" f ≡ none
      → IsSound n log
      → IsSound (suc n) (write hash_entry f log)
  unfolding write verify_chain last_line current_state
  write-IsSound n f log own (last, state, checked) =
      let hash = anchor n last in
      (
        hash_entry (linked (pos n, hash) f),
        rw (state, write) (ground (arith, get-stored n hash f)),
        rw (state, write)
            (rw (checked, verify_chain) (check_entry-stored (suc (length log)) n last f own)),
      )

  pub nil-IsSound : IsSound 0 []
  unfolding verify_chain last_line current_state
  nil-IsSound = ("", refl, refl)

  write_all-IsSound :
      (fs : List Fields)
      → All (λ f. get "entry_hash" f ≡ none) fs
      → IsSound (length fs) (write_all fs)
  unfolding write_all
  write_all-IsSound [] h = nil-IsSound
  write_all-IsSound (f ∷ fs) (own, h) =
      write-IsSound (length fs) f (write_all fs) own (write_all-IsSound fs h)

  -- A log that was written entry by entry into an empty file is accepted, whatever the hash
  -- function: every entry is checked, none counts as legacy, and there is no segment boundary. The
  -- entries that were given to be written bring no `entry_hash` of their own.
  pub verify_chain-write_all :
      (fs : List Fields)
      → All (λ f. get "entry_hash" f ≡ none) fs
      → report_of (verify_chain hash_entry (write_all fs)) ≡ some (length fs, 0, [])
  verify_chain-write_all fs own = ap report_of (write_all-IsSound fs own).2
