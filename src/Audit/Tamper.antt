-- ===== src/Audit/Tamper.antt =====
-- What an accepted entry shows: how it hangs on the link before it.
pub mod Logs
use auto_heal.Prelude.{
  Bool-cases, List, Option, String, [], ap, arith, false, if◌then◌else◌, inl, inr, negsuc, none,
  pos, refl, some, suc, sym, true, ℕ, ℤ, ◌&&◌, ◌++◌, ◌==◌, ◌∙◌, ◌∷◌, ◌≡◌, ◌≢◌,
}
use auto_heal.Audit.{broken, check_links, continues, genesis_hash, grow, next, running, same_int}

-- How an entry with this sequence and this claim hangs on the link before it
pub data Hangs (sequence : ℤ) (claimed : String) : Option (ℤ × String) → Type 0 where
  opens :
      (prev : Option (ℤ × String))
      → prev ≡ none
      → sequence ≡ pos 1
      → claimed ≡ genesis_hash
      → Hangs sequence claimed prev
  continues_on :
      (prev : Option (ℤ × String)) (before : ℤ)
      → prev ≡ some (before, claimed)
      → sequence ≡ next before
      → (same_int sequence (pos 1) && claimed == genesis_hash) ≡ false
      → Hangs sequence claimed prev

pub record Linked (n legacy : ℕ) (boundaries : List ℕ) (prev : Option (ℤ × String))
    (sequence : Option ℤ) (claimed : Option String) (hash : String) (m : ℕ) (last : ℤ × String)
    : Type 0 where
  pub one_more : m ≡ suc n
  pub no_legacy : legacy ≡ 0
  pub no_boundary : boundaries ≡ []
  pub last_sequence : sequence ≡ some last.0
  pub last_hash : last.1 ≡ hash
  pub claim : String
  pub claimed_is : claimed ≡ some claim
  pub hangs : Hangs last.0 claim prev

same_int-eq : (a b : ℤ) → same_int a b ≡ true → a ≡ b
same_int-eq (pos m) (pos n) h = ground arith
same_int-eq (pos m) (negsuc n) h = cc h
same_int-eq (negsuc m) (pos n) h = cc h
same_int-eq (negsuc m) (negsuc n) h = ground arith

pub next-injective : (a b : ℤ) → next a ≡ next b → a ≡ b
next-injective (pos m) (pos n) h = ground arith
next-injective (pos m) (negsuc n) h = ground arith
next-injective (negsuc m) (pos n) h = ground arith
next-injective (negsuc m) (negsuc n) h = ground arith

pub running_parts :
    (n m k l : ℕ) (b c : List ℕ) (p q : Option (ℤ × String))
    → running n k b p ≡ running m l c q
    → (n ≡ m) × (k ≡ l) × (b ≡ c) × (p ≡ q)
running_parts n m k l b c p q h = (cc h, cc h, cc h, cc h)

snoc-ne-nil : (xs : List ℕ) (x : ℕ) → xs ++ x ∷ [] ≢ []
snoc-ne-nil [] x h = cc h
snoc-ne-nil (y ∷ xs) x h = cc h

grow-nil :
    (line_number : ℕ) (boundaries : List ℕ) (prev : Option (ℤ × String))
    → grow line_number boundaries prev ≡ []
    → (boundaries ≡ []) × (prev ≡ none)
grow-nil line_number boundaries none h = (h, refl)
grow-nil line_number boundaries (some p) h = absurd (snoc-ne-nil boundaries line_number h)

opens-Linked :
    (line_number n legacy : ℕ) (boundaries : List ℕ) (prev : Option (ℤ × String)) (s : ℤ)
    (c hash : String) (m : ℕ) (last : ℤ × String)
    → (same_int s (pos 1) && c == genesis_hash) ≡ true
    → running (suc n) legacy (grow line_number boundaries prev) (some (s, hash))
      ≡ running m 0 [] (some last)
    → Linked n legacy boundaries prev (some s) (some c) hash m last
opens-Linked line_number n legacy boundaries prev s c hash m last new h =
    let (count, none_legacy, grown, ends) =
      running_parts (suc n) m legacy 0 (grow line_number boundaries prev) [] (some (s, hash))
        (some last) h in
    let (empty, fresh) = grow-nil line_number boundaries prev grown in
    let e : (s, hash) ≡ last = cc ends in
    record {
      one_more = sym count;
      no_legacy = none_legacy;
      no_boundary = empty;
      last_sequence = ap (λ p. some p.0) e;
      last_hash = ap (λ p. p.1) (sym e);
      claim = c;
      claimed_is = refl;
      hangs =
          opens prev fresh (ap (λ p. p.0) (sym e) ∙ same_int-eq s (pos 1) (ground arith))
            (ground arith);
    }

continues-Linked :
    (line_number n legacy : ℕ) (boundaries : List ℕ) (prev : Option (ℤ × String)) (s : ℤ)
    (c hash : String) (m : ℕ) (last : ℤ × String)
    → (same_int s (pos 1) && c == genesis_hash) ≡ false
    → (if continues s c prev
        then running (suc n) legacy boundaries (some (s, hash))
        else broken line_number)
      ≡ running m 0 [] (some last)
    → Linked n legacy boundaries prev (some s) (some c) hash m last
continues-Linked line_number n legacy boundaries none s c hash m last old h = cc h
continues-Linked line_number n legacy boundaries (some (s0, h0)) s c hash m last old h =
    elim (Bool-cases (same_int s (next s0) && c == h0)) [
      | inl follows ↦
          let h' : running (suc n) legacy boundaries (some (s, hash)) ≡ running m 0 [] (some last) =
            rw follows at h in
          let (count, none_legacy, empty, ends) =
            running_parts (suc n) m legacy 0 boundaries [] (some (s, hash)) (some last) h' in
          let e : (s, hash) ≡ last = cc ends in
          let same : c ≡ h0 = ground arith in
          let same_s : s ≡ last.0 = ap (λ p. p.0) e in
          record {
            one_more = sym count;
            no_legacy = none_legacy;
            no_boundary = empty;
            last_sequence = ap some same_s;
            last_hash = ap (λ p. p.1) (sym e);
            claim = c;
            claimed_is = refl;
            hangs =
                continues_on (some (s0, h0)) s0 (ap (λ x. some (s0, x)) (sym same))
                  (sym same_s ∙ same_int-eq s (next s0) (ground arith)) (rw (← same_s) old);
          }
      | inr stops ↦
          let h' : broken line_number ≡ running m 0 [] (some last) = rw stops at h in cc h'
    ]

pub check_links-Linked :
    (line_number n legacy : ℕ) (boundaries : List ℕ) (prev : Option (ℤ × String))
    (sequence : Option ℤ) (claimed : Option String) (hash : String) (m : ℕ) (last : ℤ × String)
    → check_links line_number n legacy boundaries prev sequence claimed hash
      ≡ running m 0 [] (some last)
    → Linked n legacy boundaries prev sequence claimed hash m last
check_links-Linked line_number n legacy boundaries prev none claimed hash m last h = cc h
check_links-Linked line_number n legacy boundaries prev (some s) none hash m last h = cc h
check_links-Linked line_number n legacy boundaries prev (some s) (some c) hash m last h =
    elim (Bool-cases (same_int s (pos 1) && c == genesis_hash)) [
      | inl new ↦
          opens-Linked line_number n legacy boundaries prev s c hash m last new (rw new at h)
      | inr old ↦
          continues-Linked line_number n legacy boundaries prev s c hash m last old (rw old at h)
    ]
