-- ===== src/Audit/Tamper/Logs.antt =====
-- Tamper evidence: the last link of an accepted log determines its entries.
use auto_heal.Prelude.{
  All, Bool-cases, List, Option, String, String-discrete, [], ap, arith, false, if◌then◌else◌, inl,
  inr, length, map, none, pos, refl, some, suc, sym, true, ℕ, ℤ, ◌&&◌, ◌==◌, ◌∙◌, ◌∷◌, ◌≡◌, ◌≢◌,
}
use auto_heal.Value.{Fields, as_text, end, field, get, has, null, text_at}
use auto_heal.Audit.{
  Check, broken, check_entry, check_line, check_links, entry, genesis_hash, int_at, is_text, raised,
  running, same_int, verify_chain, without_key,
}
use auto_heal.Audit.Tamper.{
  Hangs, Linked, check_links-Linked, continues_on, next-injective, opens, running_parts,
}

abbrev pub bare : Fields → Fields
bare = without_key "entry_hash"

get-without_key :
    (k j : String) (f : Fields) → get j (without_key k f) ≡ (if k == j then none else get j f)
unfolding get without_key
get-without_key k j end = ground arith
get-without_key k j (field i v f) = ground (arith, get-without_key k j f)

-- Two entries hold the same, but for their own hashes.
abbrev pub SameContent : Fields → Fields → Type 0
SameContent f g = (k : String) → get k (bare f) ≡ get k (bare g)

abbrev pub AllSame : List Fields → List Fields → Type 0
AllSame [] [] = Unit {0}
AllSame (f ∷ fs) (g ∷ gs) = SameContent f g × AllSame fs gs
AllSame _ _ = ⊥

text-same : (f g : Fields) → SameContent f g → text_at "prev_hash" f ≡ text_at "prev_hash" g
unfolding String-discrete
text-same f g same =
    let e : get "prev_hash" f ≡ get "prev_hash" g =
      sym (get-without_key "entry_hash" "prev_hash" f)
      ∙ same "prev_hash"
      ∙ get-without_key "entry_hash" "prev_hash" g in
    ap (λ o. as_text (elim o [ none ↦ null | some v ↦ v ])) e

not_old :
    (sequence : ℤ) (claimed : String)
    → sequence ≡ pos 1
    → claimed ≡ genesis_hash
    → (same_int sequence (pos 1) && claimed == genesis_hash) ≡ false
    → ⊥
unfolding String-discrete
not_old sequence claimed s c old =
    let contradiction : true ≡ false = rw s at (rw c at old) in cc contradiction

Hangs-same :
    (sequence : ℤ) (claimed : String) (prev prev' : Option (ℤ × String))
    → Hangs sequence claimed prev
    → Hangs sequence claimed prev'
    → prev ≡ prev'
Hangs-same sequence claimed prev prev' (opens p e s c) (opens q e' s' c') = e ∙ sym e'
Hangs-same sequence claimed prev prev' (opens p e s c) (continues_on q before e' s' old) =
    absurd (not_old sequence claimed s c old)
Hangs-same sequence claimed prev prev' (continues_on p before e s old) (opens q e' s' c') =
    absurd (not_old sequence claimed s' c' old)
Hangs-same sequence claimed prev prev' (continues_on p before e s old)
      (continues_on q before' e' s' old') =
    e ∙ ap (λ b. some (b, claimed)) (next-injective before before' (sym s ∙ s')) ∙ sym e'

module _ (hash_entry : Fields → String) where
  -- No entry of the one log collides with an entry of the other.
  abbrev pub CollisionFree : List Fields → List Fields → Type 0
  CollisionFree fs gs =
      All (λ f. All (λ g. hash_entry (bare f) ≡ hash_entry (bare g) → SameContent f g) gs) fs

  check_entry-Linked :
      (line_number n legacy : ℕ) (boundaries : List ℕ) (prev : Option (ℤ × String)) (f : Fields)
      (m : ℕ) (last : ℤ × String)
      → check_entry hash_entry line_number n legacy boundaries prev f ≡ running m 0 [] (some last)
      → Linked n legacy boundaries prev
          (int_at "sequence" f)
          (text_at "prev_hash" f)
          (hash_entry (bare f))
          m
          last
  check_entry-Linked line_number n legacy boundaries prev f m last h =
      elim (Bool-cases (has "sequence" f && has "prev_hash" f && has "entry_hash" f)) [
        | inr missing ↦
            let (_, none_legacy, _, _) =
              running_parts n m (suc legacy) 0 boundaries [] prev (some last) (rw missing at h) in
            absurd (omega arith)
        | inl there ↦ elim (Bool-cases (is_text (hash_entry (bare f)) (text_at "entry_hash" f))) [
          | inr wrong ↦
              let stopped : broken line_number ≡ running m 0 [] (some last) =
                rw wrong at (rw there at h) in
              cc stopped
          | inl right ↦
              check_links-Linked line_number n legacy boundaries prev (int_at "sequence" f)
                (text_at "prev_hash" f) (hash_entry (bare f)) m last (rw right at (rw there at h))
        ]
      ]

  abbrev chain : List Fields → Check
  chain fs = verify_chain hash_entry (map entry fs)

  -- The log before the last entry is accepted too, and the entry hangs on its end.
  record Extends (f : Fields) (fs : List Fields) (m : ℕ) (last : ℤ × String) : Type 0 where
    n : ℕ
    prev : Option (ℤ × String)
    before : chain fs ≡ running n 0 [] prev
    linked_on :
        Linked n 0 [] prev
          (int_at "sequence" f)
          (text_at "prev_hash" f)
          (hash_entry (bare f))
          m
          last

  check_line-Extends :
      (line_number : ℕ) (f : Fields) (fs : List Fields) (m : ℕ) (last : ℤ × String) (c : Check)
      → chain fs ≡ c
      → check_line hash_entry line_number (entry f) c ≡ running m 0 [] (some last)
      → Extends f fs m last
  check_line-Extends line_number f fs m last (broken at) e h = cc h
  check_line-Extends line_number f fs m last raised e h = cc h
  check_line-Extends line_number f fs m last (running n legacy boundaries prev) e h =
      let l = check_entry-Linked line_number n legacy boundaries prev f m last h in
      record {
        n = n;
        prev = prev;
        before = e ∙ ground (arith, l.no_legacy, l.no_boundary);
        linked_on = rw (← l.no_legacy) (rw (← l.no_boundary) l);
      }

  chain-Extends :
      (f : Fields) (fs : List Fields) (m : ℕ) (last : ℤ × String)
      → chain (f ∷ fs) ≡ running m 0 [] (some last)
      → Extends f fs m last
  unfolding verify_chain
  chain-Extends f fs m last h =
      check_line-Extends (suc (length (map entry fs))) f fs m last (chain fs) refl h

  check_links-ne-none :
      (line_number n legacy : ℕ) (boundaries : List ℕ) (prev : Option (ℤ × String))
      (sequence : Option ℤ) (claimed : Option String) (hash : String) (m : ℕ)
      → check_links line_number n legacy boundaries prev sequence claimed hash ≢ running m 0 [] none
  check_links-ne-none line_number n legacy boundaries prev none claimed hash m h = cc h
  check_links-ne-none line_number n legacy boundaries prev (some s) none hash m h = cc h
  check_links-ne-none line_number n legacy boundaries prev (some s) (some c) hash m h = ground arith

  check_line-ne-none :
      (line_number : ℕ) (f : Fields) (m : ℕ) (c : Check)
      → check_line hash_entry line_number (entry f) c ≢ running m 0 [] none
  check_line-ne-none line_number f m (broken at) h = cc h
  check_line-ne-none line_number f m raised h = cc h
  check_line-ne-none line_number f m (running n legacy boundaries prev) h = ground (
    arith,
    check_links-ne-none line_number n legacy boundaries prev (int_at "sequence" f)
        (text_at "prev_hash" f) (hash_entry (bare f)) m,
  )

  CollisionFree-tail :
      (g : Fields) (fs gs : List Fields) → CollisionFree fs (g ∷ gs) → CollisionFree fs gs
  CollisionFree-tail g [] gs h = tt
  CollisionFree-tail g (f ∷ fs) gs h = (h.0.1, CollisionFree-tail g fs gs h.1)

  -- Two logs of entries that `verify_chain` accepts without legacy entries and without a second
  -- segment, and that end in the same sequence and hash, hold the same entries, if no two different
  -- ones of them have the same hash: what was changed, dropped or swapped shows in the last hash.
  pub verify_chain-AllSame :
      (fs gs : List Fields) (m n : ℕ) (o : Option (ℤ × String))
      → chain fs ≡ running m 0 [] o
      → chain gs ≡ running n 0 [] o
      → CollisionFree fs gs
      → AllSame fs gs
  unfolding verify_chain
  verify_chain-AllSame [] [] m n o h k free = tt
  verify_chain-AllSame (f ∷ fs) gs m n none h k free =
      absurd (check_line-ne-none (suc (length (map entry fs))) f m (chain fs) h)
  verify_chain-AllSame [] (g ∷ gs) m n none h k free =
      absurd (check_line-ne-none (suc (length (map entry gs))) g n (chain gs) k)
  verify_chain-AllSame [] (g ∷ gs) m n (some last) h k free = cc h
  verify_chain-AllSame (f ∷ fs) [] m n (some last) h k free = cc k
  verify_chain-AllSame (f ∷ fs) (g ∷ gs) m n (some last) h k free =
      let x = chain-Extends f fs m last h in
      let y = chain-Extends g gs n last k in
      let same = free.0.0 (sym x.linked_on.last_hash ∙ y.linked_on.last_hash) in
      let claims : x.linked_on.claim ≡ y.linked_on.claim =
        cc (sym x.linked_on.claimed_is ∙ text-same f g same ∙ y.linked_on.claimed_is) in
      let before : x.prev ≡ y.prev =
        Hangs-same last.0 y.linked_on.claim x.prev y.prev (rw claims at x.linked_on.hangs)
          y.linked_on.hangs in
      (
        same,
        verify_chain-AllSame fs gs x.n y.n y.prev (x.before ∙ ap (running x.n 0 []) before) y.before
            (CollisionFree-tail g fs gs free.1),
      )
