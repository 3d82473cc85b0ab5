-- ===== src/Audit/Rotate/Reach.antt =====
-- Every file that a run of the program leaves behind verifies.
use mathlib.Core.Option
use auto_heal.Prelude.{
  List, Option, String, [], ap, length, none, refl, some, suc, true, ℤ, ◌++◌, ◌∷◌, ◌≡◌, ◌≢◌,
}
use auto_heal.Value.{Fields, get}
use auto_heal.Audit.Laws.{nil-IsSound}
use auto_heal.Audit.Rotate.{
  Archive, Disk, Rotation, Store, append, archived, fail, free_name, given_days, has_cutoff, int_of,
  keep, maybe_rotate, names_of, rotate, rotated_to, segment, should_rotate, sweep, sweep_retention,
  written,
}
use auto_heal.Audit.Rotate.Names.{IsInjective, free_name-total}
use auto_heal.Audit.Rotate.Laws.{IsIntact, append-IsIntact}

abbrev pub nothing_yet : Store
nothing_yet = record { log = none; mtime = 0; archives = [] }

module _ (hash_entry : Fields → String) (cfg : Fields) where
  -- What appends come to, from no file at all, at any times and whatever the disk answers
  pub data Reach : Store → Type 0 where
    start : Reach nothing_yet
    more :
        {s t : Store} (d : Disk) (f : Fields)
        → Reach s
        → get "entry_hash" f ≡ none
        → append hash_entry d cfg f s ≡ some t
        → Reach t

  -- In every state that appends reach from no file, `verify_chain` accepts each of the archives with
  -- all of its lines, and the log is linked up to its end, whatever was rotated out and deleted in
  -- between, if the entries bring no `entry_hash` of their own.
  pub Reach-IsIntact : {s : Store} → Reach s → IsIntact hash_entry cfg s
  Reach-IsIntact start = record { current = nil-IsSound hash_entry; archived_ones = tt }
  Reach-IsIntact (more {s} {t} d f before own appended) =
      append-IsIntact hash_entry cfg d f s t own appended (Reach-IsIntact before)

-- The days of retention, where there are any, reach back to a date.
abbrev pub Sweeps : Disk → Option ℤ → Type 0
Sweeps d none = Unit
Sweeps d (some days) = has_cutoff d.now days ≡ true

length-names_of : (archives : List Archive) → length (names_of archives) ≡ length archives
length-names_of [] = refl
length-names_of (a ∷ archives) = ap suc (length-names_of archives)

sweep_retention-some :
    (d : Disk) (cfg : Fields) (days : Option ℤ) (archives : List Archive)
    → given_days (int_of "retention_days" cfg) ≡ days
    → Sweeps d days
    → (swept : List Archive × List String) × (sweep_retention d cfg archives ≡ some swept)
unfolding sweep_retention
sweep_retention-some d cfg none archives e fits = ((archives, []), rw (e, sweep_retention) refl)
sweep_retention-some d cfg (some days) archives e fits =
    (sweep d days archives, rw (e, sweep_retention) (rw fits refl))

-- An append comes to an end and is written, if the test for a rotation does not raise (the log's
-- first line is an object whose timestamp, if it has one, is a text and no ISO time without an
-- offset, and the days between rotations fit a timedelta), and if the days of retention, where
-- there are any, reach back to a date: the search for the archive's name finds one, if the digits of
-- different numbers differ.
pub append-total :
    (hash_entry : Fields → String) (d : Disk) (cfg f : Fields) (s : Store)
    → IsInjective d.digits
    → should_rotate d cfg s.log ≢ fail
    → Sweeps d (given_days (int_of "retention_days" cfg))
    → (t : Store) × (append hash_entry d cfg f s ≡ some t)
unfolding append maybe_rotate
append-total hash_entry d cfg f s inj fine fits = go (should_rotate d cfg s.log) fine
  where
    go :
        (r : Rotation)
        → r ≢ fail
        → (t : Store) × (Option.map (written hash_entry d f) (elim r [
          | keep ↦ some s
          | fail ↦ none
          | rotate ↦
              rotated_to hash_entry d cfg s
                (free_name (suc (length s.archives)) d (names_of s.archives) 0)
        ])
            ≡ some t)
    go keep ok = (written hash_entry d f s, refl)
    go fail ok = absurd (ok refl)
    go rotate ok =
        let (name, found, new) = free_name-total d (names_of s.archives) inj in
        let found' : free_name (suc (length s.archives)) d (names_of s.archives) 0 ≡ some name =
          rw (length-names_of s.archives) at found in
        let (swept, e) =
          sweep_retention-some d cfg (given_days (int_of "retention_days" cfg))
            (s.archives ++ archived s name ∷ []) refl fits in
        (written hash_entry d f (segment hash_entry d name swept), rw found' (rw e refl))
