-- ===== src/RateLimit/Retry.antt =====
-- What the answer of one `RateLimiter.check` promises.
use auto_heal.Prelude.{
  List, Option, String, [], arith, length, length-append, none, pos, some, suc, ℕ, ℤ, ◌+◌, ◌∷◌, ◌≡◌,
  ◌≤◌,
}
use auto_heal.RateLimit.{admit, check, retry_after}
use auto_heal.Dict.{insert}
use auto_heal.RateLimit.Deque.{Hits, expire, length-expire-le, recorded, recorded-insert}

-- No deque holds more calls than the limit.
abbrev pub IsWithin : ℕ → String → Hits → Type 0
IsWithin limit key hits = length (recorded key hits) ≤ limit

admit-bounded :
    (limit window now : ℕ) (ts : List ℕ)
    → length ts ≤ limit
    → length (admit limit window now ts).1 ≤ limit
unfolding admit
admit-bounded limit window now ts h =
    ground (arith, length-expire-le now window ts, length-append (expire now window ts) (now ∷ []))

later_room :
    (n window now later : ℕ) (left : List ℕ)
    → length left ≤ suc n
    → suc n ≤ length left
    → now + retry_after left window now ≤ later
    → length (expire later window left) ≤ n
unfolding expire
later_room n window now later [] fits full wait = absurd (omega arith)
later_room n window now later (t ∷ rest) fits full wait =
    ground (arith, length-expire-le later window rest)

-- A refused call leaves a deque whose oldest call is gone when the hint has passed.
admit_later :
    (n window now later r : ℕ) (ts : List ℕ)
    → (admit (suc n) window now ts).0 ≡ some r
    → length ts ≤ suc n
    → now + r ≤ later
    → (admit (suc n) window later (admit (suc n) window now ts).1).0 ≡ none
unfolding admit
admit_later n window now later r ts refused fits wait =
    ground
      (arith, length-expire-le now window ts, later_room n window now later (expire now window ts))

module _ (key : String) (limit : Option ℤ) (window now : ℕ) (hits : Hits) {n : ℕ}
    (limited : limit ≡ some (pos (suc n))) where
  pub check-admit : check key limit window now hits ≡ (
    (admit (suc n) window now (recorded key hits)).0,
    insert key (admit (suc n) window now (recorded key hits)).1 hits,
  )
  unfolding check
  check-admit = rw (limited, check)

  pub recorded-check_self :
      recorded key (check key limit window now hits).1
      ≡ (admit (suc n) window now (recorded key hits)).1
  recorded-check_self = rw check-admit (
      ground (arith, recorded-insert key key (admit (suc n) window now (recorded key hits)).1 hits))

  -- The deque of a limited key stays within the limit.
  pub check-IsWithin :
      IsWithin (suc n) key hits → IsWithin (suc n) key (check key limit window now hits).1
  check-IsWithin h = rw recorded-check_self (admit-bounded (suc n) window now (recorded key hits) h)

  check-later :
      (later : ℕ)
      → (check key limit window later (check key limit window now hits).1).0
        ≡ (admit (suc n) window later (recorded key (check key limit window now hits).1)).0
  unfolding check
  check-later later = rw (limited, check)

  -- A refused caller with a positive limit that makes no call until the hint has passed is let
  -- through then, if its deque is within the limit.
  pub retry_after-suffices :
      (later r : ℕ)
      → IsWithin (suc n) key hits
      → (check key limit window now hits).0 ≡ some r
      → now + r ≤ later
      → (check key limit window later (check key limit window now hits).1).0 ≡ none
  retry_after-suffices later r fits refused wait = ground (
    arith,
    check-admit,
    recorded-check_self,
    check-later later,
    admit_later n window now later r (recorded key hits),
  )
