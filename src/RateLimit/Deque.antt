-- ===== src/RateLimit/Deque.antt =====
-- The deques of `RateLimiter`, and the loop that drops what has left the window.
use auto_heal.Dict.{Dict, insert, lookup, lookup-insert}
use auto_heal.Prelude.{
  All, List, String, [], arith, if◌then◌else◌, leb, length, none, refl, some, ℕ, ◌++◌, ◌+◌, ◌==◌,
  ◌∷◌, ◌≡◌, ◌≤◌,
}

-- `while hits and hits[0] <= now - window: hits.popleft()`. The test is written as
-- `hits[0] + window <= now`, since numbers here do not go below 0.
unfoldable pub expire : ℕ → ℕ → List ℕ → List ℕ
expire now window [] = []
expire now window (t ∷ ts) =
    let rest = expire now window ts in if leb (t + window) now then rest else t ∷ ts

-- What the loop has dropped.
unfoldable pub expired : ℕ → ℕ → List ℕ → List ℕ
expired now window [] = []
expired now window (t ∷ ts) =
    let rest = expired now window ts in if leb (t + window) now then t ∷ rest else []

pub expired-append-expire :
    (now window : ℕ) (ts : List ℕ) → expired now window ts ++ expire now window ts ≡ ts
unfolding expired expire
expired-append-expire now window [] = refl
expired-append-expire now window (t ∷ ts) = ground (arith, expired-append-expire now window ts)

abbrev pub IsOld : ℕ → ℕ → ℕ → Type 0
IsOld now window t = t + window ≤ now

pub All-expired : (now window : ℕ) (ts : List ℕ) → All (IsOld now window) (expired now window ts)
unfolding expired
All-expired now window [] = tt
All-expired now window (t ∷ ts) = ground (arith, All-expired now window ts)

pub length-expire-le : (now window : ℕ) (ts : List ℕ) → length (expire now window ts) ≤ length ts
unfolding expire
length-expire-le now window [] = omega arith
length-expire-le now window (t ∷ ts) = ground (arith, length-expire-le now window ts)

-- The map `_hits`: each key's recorded calls, the oldest first.
abbrev pub Hits : Type 0
Hits = Dict (List ℕ)

-- `self._hits.setdefault(key, deque())`
unfoldable pub recorded : String → Hits → List ℕ
recorded key hits = elim (lookup key hits) [ none ↦ [] | some ts ↦ ts ]

pub recorded-insert :
    (k j : String) (ts : List ℕ) (hits : Hits)
    → recorded j (insert k ts hits) ≡ (if k == j then ts else recorded j hits)
unfolding recorded
recorded-insert k j ts hits = ground (arith, lookup-insert k j ts hits)
