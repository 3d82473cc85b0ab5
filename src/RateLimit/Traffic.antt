-- ===== src/RateLimit/Traffic.antt =====
-- `RateLimiter.check` under calls of many keys.
use auto_heal.Prelude.{
  Bool-cases, List, Option, String, [], arith, if◌then◌else◌, inl, inr, none, pos, refl, some, suc,
  ℕ, ℤ, ◌==◌, ◌∷◌, ◌≡◌, ◌≢◌, ◌≤◌,
}
use auto_heal.Dict.{lookup}
use auto_heal.RateLimit.{admit, capacity, check}
use auto_heal.RateLimit.Deque.{Hits, recorded, recorded-insert}
use auto_heal.RateLimit.Retry.{check-admit, recorded-check_self}
use auto_heal.RateLimit.Window.{Ascending, accepted, count_in, count_in-accepted}

pub record Call : Type 0 where
  pub key : String
  pub at : ℕ

-- The times at which calls of the key `k` go through.
unfoldable pub passed : (String → Option ℤ) → ℕ → String → List Call → Hits → List ℕ
passed limits window k [] hits = []
passed limits window k (c ∷ calls) hits =
    let (hint, hits') = check c.key (limits c.key) window c.at hits in
    let rest = passed limits window k calls hits' in
    if c.key == k then elim hint [ none ↦ c.at ∷ rest | some _ ↦ rest ] else rest

times_of : String → List Call → List ℕ
times_of k [] = []
times_of k (c ∷ calls) = let rest = times_of k calls in if c.key == k then c.at ∷ rest else rest

abbrev pub AscendingCalls : ℕ → List Call → Type 0
AscendingCalls last [] = Unit
AscendingCalls last (c ∷ calls) = (last ≤ c.at) × AscendingCalls c.at calls

Ascending-weaken : {m n : ℕ} (ts : List ℕ) → m ≤ n → Ascending n ts → Ascending m ts
Ascending-weaken [] h a = tt
Ascending-weaken (t ∷ ts) h a = (omega arith, a.1)

times_of-Ascending :
    (k : String) (last : ℕ) (calls : List Call)
    → AscendingCalls last calls
    → Ascending last (times_of k calls)
unfolding times_of
times_of-Ascending k last [] h = tt
times_of-Ascending k last (c ∷ calls) h = elim (Bool-cases (c.key == k)) [
  | inl same ↦ rw same (h.0, times_of-Ascending k c.at calls h.1)
  | inr other ↦
      rw other (Ascending-weaken (times_of k calls) h.0 (times_of-Ascending k c.at calls h.1))
]

-- A call of one key leaves the deques of the others alone.
pub recorded-check_ne :
    (key k : String) (limit : Option ℤ) (window now : ℕ) (hits : Hits)
    → key ≢ k
    → recorded k (check key limit window now hits).1 ≡ recorded k hits
unfolding check
recorded-check_ne key k limit window now hits ne =
    ground
      (arith, recorded-insert key k (admit (capacity limit) window now (recorded key hits)).1 hits)

module _ (limits : String → Option ℤ) (window : ℕ) (k : String) {n : ℕ}
    (limited : limits k ≡ some (pos (suc n))) where
  passed-eq-accepted :
      (calls : List Call) (hits : Hits)
      → passed limits window k calls hits
        ≡ accepted (suc n) window (times_of k calls) (recorded k hits)
  unfolding passed accepted times_of
  passed-eq-accepted [] hits = refl
  passed-eq-accepted (c ∷ calls) hits = ground (
    arith,
    recorded-check_ne c.key k (limits c.key) window c.at hits,
    check-admit k (limits k) window c.at hits limited,
    recorded-check_self k (limits k) window c.at hits limited,
    passed-eq-accepted calls (check c.key (limits c.key) window c.at hits).1,
  )

  -- In any window no more calls of a key go through than its limit, which is positive, allows,
  -- whatever calls of other keys come between, if time does not run backwards and no call was
  -- recorded before.
  pub count_in-passed :
      (calls : List Call) (a : ℕ)
      → AscendingCalls 0 calls
      → count_in a window (passed limits window k calls []) ≤ suc n
  unfolding recorded lookup
  count_in-passed calls a asc =
      rw passed-eq-accepted
        (count_in-accepted (suc n) window (times_of k calls) (times_of-Ascending k 0 calls asc) a)
