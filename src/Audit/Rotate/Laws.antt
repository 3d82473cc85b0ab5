-- ===== src/Audit/Rotate/Laws.antt =====
-- What rotation and retention keep.
use mathlib.Core.Option
use auto_heal.Audit.Laws.{IsSound, nil-IsSound, report_of, write-IsSound}
use auto_heal.Audit.{Line, verify_chain, write}
use auto_heal.Value.{Fields, get}
use auto_heal.Prelude.{
  All, All-append, Bool-cases, List, Option, String, String-discrete, [], ap, arith, contains,
  false, if◌then◌else◌, inl, inr, length, none, refl, some, subst, suc, true, ℕ, ℤ, ◌++◌, ◌∷◌, ◌≡◌,
  ◌⊎◌,
}
use auto_heal.Audit.Rotate.Names.{free_name-new}
use auto_heal.Audit.Rotate.{
  Archive, Disk, Rotation, Store, append, archived, fail, free_name, given_days, has_cutoff, int_of,
  is_expired, is_swept, keep, lines_of, maybe_rotate, names_of, rotate, rotated_to, rotation_entry,
  segment, should_rotate, sweep, sweep_retention, written,
}

-- An archive is among these.
abbrev pub Among : Archive → List Archive → Type 0
Among a [] = ⊥
Among a (b ∷ archives) = (a ≡ b) ⊎ Among a archives

-- An archive stays, or it is older than the days of retention and its name is on the list.
abbrev pub StaysOrExpires : ℕ → Option ℤ → Archive → List Archive × List String → Type 0
StaysOrExpires now none a (archives, deleted) = Among a archives
StaysOrExpires now (some days) a (archives, deleted) =
    Among a archives ⊎ ((is_expired now days a ≡ true) × (contains a.file_name deleted ≡ true))

sweep-StaysOrExpires :
    (d : Disk) (days : ℤ) (a : Archive) (archives : List Archive)
    → Among a archives
    → StaysOrExpires d.now (some days) a (sweep d days archives)
unfolding sweep
sweep-StaysOrExpires d days a [] h = absurd h
sweep-StaysOrExpires d days a (b ∷ archives) (inl here) = ground arith
sweep-StaysOrExpires d days a (b ∷ archives) (inr there) =
    ground (arith, sweep-StaysOrExpires d days a archives there)

sweep_retention-StaysOrExpires :
    (d : Disk) (cfg : Fields) (a : Archive) (archives : List Archive)
    (swept : List Archive × List String)
    → Among a archives
    → sweep_retention d cfg archives ≡ some swept
    → StaysOrExpires d.now (given_days (int_of "retention_days" cfg)) a swept
unfolding sweep_retention
sweep_retention-StaysOrExpires d cfg a archives swept h e =
    by_days (given_days (int_of "retention_days" cfg)) e
  where
    by_days :
        (days : Option ℤ)
        → elim days [
          | none ↦ some (archives, [])
          | some n ↦ if has_cutoff d.now n then some (sweep d n archives) else none
        ]
          ≡ some swept
        → StaysOrExpires d.now days a swept
    by_days none e' =
        let same : (archives, []) ≡ swept = cc e' in subst (StaysOrExpires d.now none a) same h
    by_days (some n) e' = elim (Bool-cases (has_cutoff d.now n)) [
      | inl fits ↦
          let e'' : some (sweep d n archives) ≡ some swept = rw fits at e' in
          let same : sweep d n archives ≡ swept = cc e'' in
          subst (StaysOrExpires d.now (some n) a) same (sweep-StaysOrExpires d n a archives h)
      | inr beyond ↦ let e'' : none ≡ some swept = rw beyond at e' in absurd (cc e'')
    ]

sweep-All :
    (P : Archive → Type 0) (d : Disk) (days : ℤ) (archives : List Archive)
    → All P archives
    → All P (sweep d days archives).0
unfolding sweep
sweep-All P d days [] h = tt
sweep-All P d days (a ∷ archives) h = elim (Bool-cases (is_swept d days a)) [
  | inl out ↦ rw (out, sweep) (sweep-All P d days archives h.1)
  | inr stays ↦ rw (stays, sweep) (h.0, sweep-All P d days archives h.1)
]

sweep_retention-All :
    (P : Archive → Type 0) (d : Disk) (cfg : Fields) (archives : List Archive)
    (swept : List Archive × List String)
    → All P archives
    → sweep_retention d cfg archives ≡ some swept
    → All P swept.0
unfolding sweep_retention
sweep_retention-All P d cfg archives swept h e =
    by_days (given_days (int_of "retention_days" cfg)) e
  where
    by_days :
        (days : Option ℤ)
        → elim days [
          | none ↦ some (archives, [])
          | some n ↦ if has_cutoff d.now n then some (sweep d n archives) else none
        ]
          ≡ some swept
        → All P swept.0
    by_days none e' =
        let same : (archives, []) ≡ swept = cc e' in
        subst (λ (x : List Archive × List String). All P x.0) same h
    by_days (some n) e' = elim (Bool-cases (has_cutoff d.now n)) [
      | inl fits ↦
          let e'' : some (sweep d n archives) ≡ some swept = rw fits at e' in
          let same : sweep d n archives ≡ swept = cc e'' in
          subst (λ (x : List Archive × List String). All P x.0) same (sweep-All P d n archives h)
      | inr beyond ↦ let e'' : none ≡ some swept = rw beyond at e' in absurd (cc e'')
    ]

module _ (hash_entry : Fields → String) (cfg : Fields) where
  -- An append adds to the log, or turns it into an archive under a new name and starts another one.
  -- Then every archive, the new one too, stays or is old enough to go; which went is written in the
  -- first entry of the new log.
  pub data Kept (d : Disk) (f : Fields) (s t : Store) : Type 0 where
    grown :
        t.log ≡ some (write hash_entry f (lines_of s.log)) → t.archives ≡ s.archives → Kept d f s t
    turned :
        (name : String) (deleted : List String)
        → contains name (names_of s.archives) ≡ false
        → t.log ≡ some (write hash_entry f (write hash_entry (rotation_entry d name deleted) []))
        → ((a : Archive)
            → Among a (s.archives ++ archived s name ∷ [])
            → StaysOrExpires d.now
                (given_days (int_of "retention_days" cfg))
                a
                (t.archives, deleted))
        → Kept d f s t

  segment-Kept :
      (d : Disk) (f : Fields) (s : Store) (name : String) (swept : List Archive × List String)
      → contains name (names_of s.archives) ≡ false
      → sweep_retention d cfg (s.archives ++ archived s name ∷ []) ≡ some swept
      → Kept d f s (written hash_entry d f (segment hash_entry d name swept))
  segment-Kept d f s name swept new e =
      turned name swept.1 new refl (λ a h.
        sweep_retention-StaysOrExpires d cfg a (s.archives ++ archived s name ∷ []) swept h e)

  -- The two ways an append ends in a store
  data Appended (d : Disk) (f : Fields) (s t : Store) : Type 0 where
    plain : t ≡ written hash_entry d f s → Appended d f s t
    renamed :
        (name : String) (swept : List Archive × List String)
        → contains name (names_of s.archives) ≡ false
        → sweep_retention d cfg (s.archives ++ archived s name ∷ []) ≡ some swept
        → t ≡ written hash_entry d f (segment hash_entry d name swept)
        → Appended d f s t

  append-Appended :
      (d : Disk) (f : Fields) (s t : Store)
      → append hash_entry d cfg f s ≡ some t
      → Appended d f s t
  unfolding append maybe_rotate
  append-Appended d f s t h = go (should_rotate d cfg s.log) h
    where
      swept_by :
          (name : String) (o : Option (List Archive × List String))
          → contains name (names_of s.archives) ≡ false
          → sweep_retention d cfg (s.archives ++ archived s name ∷ []) ≡ o
          → Option.map (written hash_entry d f) (Option.map (segment hash_entry d name) o) ≡ some t
          → Appended d f s t
      swept_by name none new e h' = absurd (cc h')
      swept_by name (some swept) new e h' = renamed name swept new e (cc h')

      named :
          (o : Option String)
          → free_name (suc (length s.archives)) d (names_of s.archives) 0 ≡ o
          → Option.map (written hash_entry d f) (rotated_to hash_entry d cfg s o) ≡ some t
          → Appended d f s t
      named none e h' = absurd (cc h')
      named (some name) e h' =
          swept_by name (sweep_retention d cfg (s.archives ++ archived s name ∷ []))
            (free_name-new (suc (length s.archives)) d (names_of s.archives) 0 name e) refl h'

      go :
          (r : Rotation)
          → Option.map (written hash_entry d f) (elim r [
            | keep ↦ some s
            | fail ↦ none
            | rotate ↦
                rotated_to hash_entry d cfg s
                  (free_name (suc (length s.archives)) d (names_of s.archives) 0)
          ])
            ≡ some t
          → Appended d f s t
      go keep h' = plain (cc h')
      go fail h' = absurd (cc h')
      go rotate h' = named (free_name (suc (length s.archives)) d (names_of s.archives) 0) refl h'

  -- Appending loses no entry of the log, and no archive but expired ones, each of which the new log
  -- names: see `Kept`.
  pub append-Kept :
      (d : Disk) (f : Fields) (s t : Store) → append hash_entry d cfg f s ≡ some t → Kept d f s t
  append-Kept d f s t h = elim (append-Appended d f s t h) [
    | plain e ↦ rw e (grown refl refl)
    | renamed name swept new sweeps e ↦ rw e (segment-Kept d f s name swept new sweeps)
  ]

  -- `verify_chain` accepts the file and counts all of its lines.
  abbrev pub IsAccepted : List Line → Type 0
  IsAccepted lines = report_of (verify_chain hash_entry lines) ≡ some (length lines, 0, [])

  -- The log is linked to its end, and every archive is accepted.
  pub record IsIntact (s : Store) : Type 0 where
    pub current : IsSound hash_entry (length (lines_of s.log)) (lines_of s.log)
    pub archived_ones : All (λ a. IsAccepted a.lines) s.archives

  pub append-IsIntact :
      (d : Disk) (f : Fields) (s t : Store)
      → get "entry_hash" f ≡ none
      → append hash_entry d cfg f s ≡ some t
      → IsIntact s
      → IsIntact t
  unfolding write get String-discrete
  append-IsIntact d f s t own h intact = elim (append-Appended d f s t h) [
    | plain e ↦ rw e record {
      current =
          write-IsSound hash_entry (length (lines_of s.log)) f (lines_of s.log) own intact.current;
      archived_ones = intact.archived_ones;
    }
    | renamed name swept new sweeps e ↦
        let entry_of = rotation_entry d name swept.1 in
        rw e record {
          current =
              write-IsSound hash_entry 1 f (write hash_entry entry_of []) own
                (write-IsSound hash_entry 0 entry_of [] refl (nil-IsSound hash_entry));
          archived_ones =
              sweep_retention-All (λ a. IsAccepted a.lines) d cfg
                (s.archives ++ archived s name ∷ []) swept
                (All-append (λ a. IsAccepted a.lines) s.archives (archived s name ∷ [])
                  intact.archived_ones (ap report_of intact.current.2, tt))
                sweeps;
        }
  ]
