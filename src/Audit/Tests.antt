-- ===== src/Audit/Tests.antt =====
-- A written log at concrete entries.

use auto_heal.Prelude.{
  List, String, String-discrete, [], ap, arith, eqb, if◌then◌else◌, map, pos, refl, some, suc, sym,
  true, zero, ℕ, ◌∷◌, ◌≡◌, ◌≢◌,
}
use auto_heal.Value.{Fields, bool, end, field, get, num, str}
use auto_heal.Audit.{broken, entry, genesis_hash, running, verify_chain, without_key, write}
use auto_heal.Audit.Tail.{Bytes, read_last_line}
use auto_heal.Audit.Tail.Laws.{last_filled, lines, read_last_line-eq-last_filled}
use auto_heal.Audit.Rotate.{
  Archive, Disk, Store, append, archived, free_name, maybe_rotate, no_iso, segment, should_rotate,
  sweep_retention, written,
}
use auto_heal.Audit.Rotate.Names.{IsInjective}
use auto_heal.Audit.Rotate.Laws.{IsIntact, Kept, append-Kept}
use auto_heal.Audit.Rotate.Reach.{Reach-IsIntact, append-total, more, nothing_yet, start}
use text.Mathlib.TextEquality.{eq_iff}
use auto_heal.Audit.Tamper.Logs.{AllSame, bare, verify_chain-AllSame}
use auto_heal.Audit.Laws.{report_of, verify_chain-write_all, write_all}

-- a stand-in for SHA-256 that looks at the sequence and the action
abbrev pub toy_hash : Fields → String
toy_hash f = elim (get "sequence" f) [
  | some (num (pos n)) ↦ if eqb n 1 then "one" else "more"
  | _ ↦ "other"
]

abbrev actions : List Fields
actions = field "action" (str "restart") end ∷ field "action" (str "health_check") end ∷ []

forged_hash :
    verify_chain toy_hash (
      write toy_hash (field "action" (str "restart") end) (
        entry (
          field "sequence"
            (num (pos 1))
            (field "prev_hash" (str genesis_hash) (field "entry_hash" (str "forged") end)))
        ∷ []))
    ≡ broken 1
unfolding verify_chain write get String-discrete
forged_hash = refl

verify_chain-write_all_example :
    report_of (verify_chain toy_hash (write_all toy_hash actions)) ≡ some (2, 0, [])
unfolding get String-discrete
verify_chain-write_all_example = verify_chain-write_all toy_hash actions (refl, (refl, tt))

-- Tally marks stand in for the decimal digits.
pub tally : ℕ → String
tally zero = ""
tally (suc n) = String.◌∷◌ "1" (tally n)

tally-IsInjective : IsInjective tally
unfolding tally
tally-IsInjective zero zero h = refl
tally-IsInjective zero (suc n) h = cc h
tally-IsInjective (suc m) zero h = cc h
tally-IsInjective (suc m) (suc n) h = ap suc (tally-IsInjective m n (cc h))

abbrev pub disk : Disk
disk = record {
  base = "audit.log";
  now = 864000000;
  compact_now = "20260111T000000Z";
  iso_now = "2026-01-11T00:00:00Z";
  size = λ lines. 2000;
  parse_time = λ ts. no_iso;
  removable = λ name. true;
  digits = tally;
}

abbrev retention : Fields
retention =
    field "enabled" (bool true)
      (field "max_bytes" (num (pos 1000)) (field "retention_days" (num (pos 5)) end))

abbrev old_archive : Archive
old_archive = record { file_name = "audit.log.20260101T000000Z"; lines = []; mtime = 0 }

abbrev full_store : Store
full_store = record { log = some []; mtime = 863000000; archives = old_archive ∷ [] }

abbrev pub restart_entry : Fields
restart_entry = field "action" (str "restart") end

-- The archive of ten days ago is gone.
abbrev swept : List Archive × List String
swept = (archived full_store "audit.log.20260111T000000Z" ∷ [], "audit.log.20260101T000000Z" ∷ [])

abbrev after_rotation : Store
after_rotation =
    written toy_hash disk restart_entry (segment toy_hash disk "audit.log.20260111T000000Z" swept)

rotates : append toy_hash disk retention restart_entry full_store ≡ some after_rotation
unfolding append maybe_rotate should_rotate free_name sweep_retention get String-discrete
rotates = refl

append-Kept_example : Kept toy_hash retention disk restart_entry full_store after_rotation
append-Kept_example =
    append-Kept toy_hash retention disk restart_entry full_store after_rotation rotates

append-total_example :
    (t : Store) × (append toy_hash disk retention restart_entry full_store ≡ some t)
unfolding should_rotate get String-discrete
append-total_example =
    append-total toy_hash disk retention restart_entry full_store tally-IsInjective (λ e. cc e) refl

abbrev pub first_store : Store
first_store = written toy_hash disk restart_entry nothing_yet

first_append : append toy_hash disk retention restart_entry nothing_yet ≡ some first_store
unfolding append maybe_rotate
first_append = refl

Reach-IsIntact_example : IsIntact toy_hash retention first_store
unfolding get String-discrete
Reach-IsIntact_example =
    Reach-IsIntact toy_hash retention (more disk restart_entry start refl first_append)

abbrev three_lines : Bytes
three_lines = 97 ∷ 10 ∷ 98 ∷ 99 ∷ 10 ∷ 10 ∷ []

-- "a\nbc\n\n" in chunks of two bytes
read_last_line-eq-last_filled_example : read_last_line 2 three_lines ≡ some (some (98 ∷ 99 ∷ []))
unfolding lines last_filled
read_last_line-eq-last_filled_example = read_last_line-eq-last_filled 2 three_lines (omega arith)

abbrev one_entry : Fields
one_entry = field "action" (str "health_check") (
    field "sequence" (num (pos 1))
      (field "prev_hash" (str genesis_hash) (field "entry_hash" (str "one") end)))

abbrev two_entry : Fields
two_entry = field "action" (str "restart") (
    field "sequence" (num (pos 2))
      (field "prev_hash" (str "one") (field "entry_hash" (str "more") end)))

two_lines :
    verify_chain toy_hash (map entry (two_entry ∷ one_entry ∷ []))
    ≡ running 2 0 [] (some (pos 2, "more"))
unfolding verify_chain get String-discrete
two_lines = refl

toy_hash-apart : toy_hash (bare two_entry) ≢ toy_hash (bare one_entry)
unfolding without_key get String-discrete
toy_hash-apart e = cc ((eq_iff "more" "one").1 e)

verify_chain-AllSame_example : AllSame (two_entry ∷ one_entry ∷ []) (two_entry ∷ one_entry ∷ [])
verify_chain-AllSame_example =
    verify_chain-AllSame toy_hash (two_entry ∷ one_entry ∷ []) (two_entry ∷ one_entry ∷ []) 2 2
      (some (pos 2, "more")) two_lines two_lines
      (
        ((λ e k. refl), ((λ e. absurd (toy_hash-apart e)), tt)),
        (((λ e. absurd (toy_hash-apart (sym e))), ((λ e k. refl), tt)), tt),
      )
