-- ===== src/Cooldown/Laws.antt =====
-- What a recorded run does to later cooldown checks, in this process and after a restart.
use auto_heal.Prelude.{
  Bool, Bool-cases, Option, String, arith, if◌then◌else◌, inl, inr, ltb, none, some, subst, true, ℕ,
  ◌&&◌, ◌+◌, ◌-◌, ◌==◌, ◌≡◌, ◌≢◌, ◌≤◌, ◌⊎◌,
}
use auto_heal.Dict.{Dict, insert, lookup, lookup-insert}
use auto_heal.Dict.Keys.{
  NodupKeys, contains-keys_where, erase_all-NodupKeys, insert-NodupKeys, keys_where,
  lookup-erase_all,
}
use auto_heal.Cooldown.{
  Tracker, is_stale, load, max_cooldown_retention_ms, prune, record_run, save, seconds_remaining,
}

-- The records have one entry to a key.
abbrev pub IsProper : Tracker → Type 0
IsProper t = NodupKeys t.last_run

abbrev fresh : ℕ → Option ℕ → Option ℕ
fresh now none = none
fresh now (some ts) = if is_stale now ts then none else some ts

lookup-prune :
    (now : ℕ) (k : String) (d : Dict ℕ)
    → NodupKeys d
    → lookup k (prune now d) ≡ fresh now (lookup k d)
unfolding prune
lookup-prune now k d h = ground (
  arith,
  lookup-erase_all (keys_where (is_stale now) d) k d,
  contains-keys_where (is_stale now) k d h,
)

lookup-record_run :
    (key k : String) (now : ℕ) (written : Bool) (t : Tracker)
    → IsProper t
    → lookup k (record_run key now written t).last_run
      ≡ (if key == k then some now else fresh now (lookup k t.last_run))
unfolding record_run
lookup-record_run key k now written t h = ground (
  arith,
  lookup-prune now k (insert key now t.last_run) (insert-NodupKeys key now t.last_run h),
  lookup-insert key k now t.last_run,
)

pub record_run-IsProper :
    (key : String) (now : ℕ) (written : Bool) (t : Tracker)
    → IsProper t
    → IsProper (record_run key now written t)
unfolding record_run
record_run-IsProper key now written t h =
    erase_all-NodupKeys (keys_where (is_stale now) (insert key now t.last_run))
      (insert key now t.last_run) (insert-NodupKeys key now t.last_run h)

-- The recorded key's own answer
pub seconds_remaining-record_run_self :
    (key : String) (now later cooldown : ℕ) (written : Bool) (t : Tracker)
    → IsProper t
    → seconds_remaining key cooldown later (record_run key now written t) ≡ (
        if ltb later (now + cooldown) && ltb 0 cooldown
        then some (now + cooldown - later)
        else none)
unfolding seconds_remaining
seconds_remaining-record_run_self key now later cooldown written t h =
    ground (arith, lookup-record_run key key now written t h)

abbrev left_of : ℕ → ℕ → ℕ → Option ℕ
left_of start cooldown later =
    if ltb later (start + cooldown) && ltb 0 cooldown then some (start + cooldown - later) else none

seconds_remaining-record_run_ne :
    (key k : String) (now later cooldown : ℕ) (written : Bool) (t : Tracker)
    → IsProper t
    → key ≢ k
    → now ≤ later
    → cooldown ≤ max_cooldown_retention_ms
    → seconds_remaining k cooldown later (record_run key now written t)
      ≡ seconds_remaining k cooldown later t
unfolding seconds_remaining
seconds_remaining-record_run_ne key k now later cooldown written t h ne order short =
    ground (arith, lookup-record_run key k now written t h)

-- After a run is recorded, the time left for its key is the cooldown less the time gone, down to
-- none, and every other key's answer is what it was, if the tracker's keys are distinct. For another
-- key this is said from then on and for cooldowns of at most a day, as older records are dropped.
pub seconds_remaining-record_run :
    (key k : String) (now later cooldown : ℕ) (written : Bool) (t : Tracker)
    → IsProper t
    → (key ≡ k) ⊎ ((now ≤ later) × (cooldown ≤ max_cooldown_retention_ms))
    → seconds_remaining k cooldown later (record_run key now written t)
      ≡ (if key == k then left_of now cooldown later else seconds_remaining k cooldown later t)
seconds_remaining-record_run key k now later cooldown written t h when =
    elim (Bool-cases (key == k)) [
      | inl same ↦
          let e : key ≡ k = ground (arith) in
          rw same (
            subst
              (λ x.
                seconds_remaining x cooldown later (record_run key now written t)
                ≡ left_of now cooldown later)
              e (seconds_remaining-record_run_self key now later cooldown written t h))
      | inr other ↦ rw other (elim when [
        | inl e ↦ absurd (ground (arith))
        | inr (order, short) ↦
            seconds_remaining-record_run_ne key k now later cooldown written t h (ground (arith))
              order short
      ])
    ]

-- A run recorded with a write that went through still counts in a process that loads the file: the
-- time left there is the cooldown less the time gone, down to none, if the tracker's keys are distinct.
pub seconds_remaining-load :
    (key : String) (now later cooldown : ℕ) (t : Tracker)
    → IsProper t
    → seconds_remaining key cooldown later (load (record_run key now true t).state_file) ≡ (
        if ltb later (now + cooldown) && ltb 0 cooldown
        then some (now + cooldown - later)
        else none)
unfolding record_run save load
seconds_remaining-load key now later cooldown t h =
    seconds_remaining-record_run_self key now later cooldown true t h
