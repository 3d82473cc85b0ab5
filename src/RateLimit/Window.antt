-- ===== src/RateLimit/Window.antt =====
-- `RateLimiter.check` over a sequence of calls: how many go through in a window.
use auto_heal.Prelude.{
  All, All-append, Bool, Bool-cases, List, [], ap, append-nil, append_assoc, arith, false, inl, inr,
  leb, length, length-append, ltb, none, refl, select, select-append, some, true, ℕ, ◌&&◌, ◌++◌,
  ◌+◌, ◌<◌, ◌∙◌, ◌∷◌, ◌≡◌, ◌≤◌,
}
use auto_heal.RateLimit.{admit}
use auto_heal.RateLimit.Deque.{All-expired, IsOld, expire, expired, expired-append-expire}

-- The calls of one key that go through, by their times.
unfoldable pub accepted : ℕ → ℕ → List ℕ → List ℕ → List ℕ
accepted limit window [] ts = []
accepted limit window (now ∷ more) ts =
    let (hint, left) = admit limit window now ts in
    let rest = accepted limit window more left in elim hint [ none ↦ now ∷ rest | some _ ↦ rest ]

-- How many of the times lie in the window that starts at `a`, its end excluded.
abbrev within : ℕ → ℕ → ℕ → Bool
within a window t = leb a t && ltb t (a + window)

abbrev pub count_in : ℕ → ℕ → List ℕ → ℕ
count_in a window ts = length (select (within a window) ts)

count_in-append :
    (a window : ℕ) (xs ys : List ℕ)
    → count_in a window (xs ++ ys) ≡ count_in a window xs + count_in a window ys
count_in-append a window xs ys =
    rw (select-append (within a window) xs ys)
      (length-append (select (within a window) xs) (select (within a window) ys))

count_in-le-length : (a window : ℕ) (xs : List ℕ) → count_in a window xs ≤ length xs
count_in-le-length a window [] = omega arith
count_in-le-length a window (x ∷ xs) = ground (arith, count_in-le-length a window xs)

-- What is old at a time in the window lies before the window.
count_in_old :
    (a window now : ℕ) (xs : List ℕ)
    → All (IsOld now window) xs
    → now < a + window
    → count_in a window xs ≡ 0
count_in_old a window now [] h k = refl
count_in_old a window now (x ∷ xs) h k = ground (arith, count_in_old a window now xs h.1 k)

All-IsOld_later :
    (window now later : ℕ) (xs : List ℕ)
    → now ≤ later
    → All (IsOld now window) xs
    → All (IsOld later window) xs
All-IsOld_later window now later [] h k = tt
All-IsOld_later window now later (x ∷ xs) h k =
    (omega arith, All-IsOld_later window now later xs h k.1)

abbrev pub Ascending : ℕ → List ℕ → Type 0
Ascending last [] = Unit
Ascending last (t ∷ ts) = (last ≤ t) × Ascending t ts

module _ (limit window : ℕ) where
  -- The calls so far are those that have left the deque and those in it.
  record Covers (last : ℕ) (past dropped ts : List ℕ) : Type 0 where
    split : past ≡ dropped ++ ts
    old : All (IsOld last window) dropped
    bounded : (a : ℕ) → count_in a window past ≤ limit

  count_in-snoc :
      (a now : ℕ) (gone left : List ℕ)
      → All (IsOld now window) gone
      → length left < limit
      → count_in a window (gone ++ left) ≤ limit
      → count_in a window ((gone ++ left) ++ now ∷ []) ≤ limit
  count_in-snoc a now gone left old room h = ground (
    arith,
    count_in-append a window (gone ++ left) (now ∷ []),
    count_in-append a window gone left,
    count_in_old a window now gone old,
    count_in-le-length a window left,
  )

  gone_eq :
      (now : ℕ) (past dropped ts : List ℕ)
      → past ≡ dropped ++ ts
      → past ≡ (dropped ++ expired now window ts) ++ expire now window ts
  gone_eq now past dropped ts e = rw (append_assoc, expired-append-expire now window ts) e

  Covers-block :
      {last : ℕ} (now : ℕ) {past dropped ts : List ℕ}
      → last ≤ now
      → Covers last past dropped ts
      → Covers now past (dropped ++ expired now window ts) (expire now window ts)
  Covers-block {last} now {past} {dropped} {ts} later c = record {
    split = gone_eq now past dropped ts c.split;
    old =
        All-append (IsOld now window) dropped (expired now window ts)
          (All-IsOld_later window last now dropped later c.old) (All-expired now window ts);
    bounded = c.bounded;
  }

  Covers-pass :
      {last : ℕ} (now : ℕ) {past dropped ts : List ℕ}
      → last ≤ now
      → length (expire now window ts) < limit
      → Covers last past dropped ts
      → Covers now
          (past ++ now ∷ [])
          (dropped ++ expired now window ts)
          (expire now window ts ++ now ∷ [])
  Covers-pass {last} now {past} {dropped} {ts} later room c =
      let d = Covers-block now later c in
      let gone = dropped ++ expired now window ts in
      let left = expire now window ts in
      record {
        split = ap (λ (l : List ℕ). l ++ now ∷ []) d.split ∙ append_assoc gone left (now ∷ []);
        old = d.old;
        bounded = λ a.
            rw d.split (count_in-snoc a now gone left d.old room (rw (← d.split) (c.bounded a)));
      }

  accepted-full :
      (now : ℕ) (more ts : List ℕ)
      → leb limit (length (expire now window ts)) ≡ true
      → accepted limit window (now ∷ more) ts ≡ accepted limit window more (expire now window ts)
  unfolding accepted admit
  accepted-full now more ts full = ground arith

  accepted-room :
      (now : ℕ) (more ts : List ℕ)
      → leb limit (length (expire now window ts)) ≡ false
      → accepted limit window (now ∷ more) ts
        ≡ now ∷ accepted limit window more (expire now window ts ++ now ∷ [])
  unfolding accepted admit
  accepted-room now more ts room = ground arith

  accepted-bounded :
      (times : List ℕ) {last : ℕ} {past dropped : List ℕ} (ts : List ℕ)
      → Ascending last times
      → Covers last past dropped ts
      → (a : ℕ) → count_in a window (past ++ accepted limit window times ts) ≤ limit
  accepted-bounded [] {past = past} ts asc c a =
      unfold accepted in rw (append-nil past) (c.bounded a)
  accepted-bounded (now ∷ more) {past = past} ts asc c a =
      let left = expire now window ts in
      elim (Bool-cases (leb limit (length left))) [
        | inl full ↦
            rw (accepted-full now more ts full)
              (accepted-bounded more left asc.1 (Covers-block now asc.0 c) a)
        | inr room ↦ rw (accepted-room now more ts room) (
            rw (append_assoc past (now ∷ []) (accepted limit window more (left ++ now ∷ []))) at (
              accepted-bounded more (left ++ now ∷ []) asc.1
                (Covers-pass now asc.0 (ground arith) c) a))
      ]

  pub count_in-accepted :
      (times : List ℕ)
      → Ascending 0 times
      → (a : ℕ) → count_in a window (accepted limit window times []) ≤ limit
  count_in-accepted times asc a =
      accepted-bounded times {past = []} {dropped = []} [] asc
        (record { split = refl; old = tt; bounded = λ _. omega arith }) a
