-- ===== src/Audit/Rotate/Names.antt =====
-- The search for an archive's name comes to an end.
use mathlib.Core.Path.{subst}
use native.Mathlib.Nat.{zero-add, add-zero}
use text.Mathlib.TextLemmas.{nil-append, cons-append, append_cancel_left}
use auto_heal.Prelude.{
  List, Option-cases, String, [], arith, contains, false, if◌then◌else◌, inl, inr, length, none,
  refl, some, suc, sym, true, zero, ℕ, ◌+◌, ◌<>◌, ◌<◌, ◌==◌, ◌∙◌, ◌∷◌, ◌≡◌, ◌≢◌, ◌≤◌,
}
use auto_heal.Audit.Rotate.{Disk, candidate, free_name}

append_self : (s t : String) → s ≡ s <> t → t ≡ ""
append_self String.[] t h = sym (nil-append t) ∙ sym h
append_self (String.◌∷◌ c s) t h =
    let h' : String.◌∷◌ c s ≡ String.◌∷◌ c (s <> t) = h ∙ cons-append c s t in
    append_self s t (cc h')

dash-ne-empty : (s : String) → "-" <> s ≢ ""
dash-ne-empty s h = let h' : String.◌∷◌ "-" ("" <> s) ≡ "" = sym (cons-append "-" "" s) ∙ h in cc h'

-- The digits of different numbers differ.
abbrev pub IsInjective : (ℕ → String) → Type 0
IsInjective digits = (m n : ℕ) → digits m ≡ digits n → m ≡ n

candidate-stem : (d : Disk) (t u : String) → d.base <> ("." <> t) ≡ d.base <> ("." <> u) → t ≡ u
candidate-stem d t u h =
    append_cancel_left "." t u (append_cancel_left d.base ("." <> t) ("." <> u) h)

candidate-injective :
    (d : Disk) → IsInjective d.digits → (m n : ℕ) → candidate d m ≡ candidate d n → m ≡ n
candidate-injective d inj zero zero h = refl
candidate-injective d inj zero (suc n) h = absurd (
    dash-ne-empty (d.digits (suc n)) (
      append_self d.compact_now ("-" <> d.digits (suc n))
        (candidate-stem d d.compact_now (d.compact_now <> ("-" <> d.digits (suc n))) h)))
candidate-injective d inj (suc m) zero h = absurd (
    dash-ne-empty (d.digits (suc m)) (
      append_self d.compact_now ("-" <> d.digits (suc m))
        (sym (candidate-stem d (d.compact_now <> ("-" <> d.digits (suc m))) d.compact_now h))))
candidate-injective d inj (suc m) (suc n) h = inj (suc m) (suc n) (
    append_cancel_left "-" (d.digits (suc m)) (d.digits (suc n)) (
      append_cancel_left d.compact_now ("-" <> d.digits (suc m)) ("-" <> d.digits (suc n)) (
        candidate-stem d (d.compact_now <> ("-" <> d.digits (suc m)))
          (d.compact_now <> ("-" <> d.digits (suc n))) h)))

-- The list without the first occurrence of a name
remove : String → List String → List String
remove s [] = []
remove s (x ∷ xs) = if s == x then xs else x ∷ remove s xs

length-remove :
    (s : String) (xs : List String) → contains s xs ≡ true → length xs ≡ suc (length (remove s xs))
unfolding remove
length-remove s [] h = absurd (cc h)
length-remove s (x ∷ xs) h = ground (arith, length-remove s xs)

contains-remove :
    (s t : String) (xs : List String)
    → t ≢ s
    → contains t xs ≡ true
    → contains t (remove s xs) ≡ true
unfolding remove
contains-remove s t [] ne h = h
contains-remove s t (x ∷ xs) ne h = ground (arith, contains-remove s t xs)

-- A list that contains `n` different names has at least so many.
pigeonhole :
    (f : ℕ → String)
    → ((i j : ℕ) → f i ≡ f j → i ≡ j)
    → (n : ℕ) (xs : List String) → ((i : ℕ) → i < n → contains (f i) xs ≡ true)
    → n ≤ length xs
pigeonhole f inj zero xs all = omega arith
pigeonhole f inj (suc n) xs all =
    let there = all n (omega arith) in
    let fewer = pigeonhole f inj n (remove (f n) xs) (λ i below.
      contains-remove (f n) (f i) xs (λ e. let same = inj i n e in omega arith)
        (all i (omega arith))) in
    omega (arith, length-remove (f n) xs there)

free_name-none :
    (fuel : ℕ) (d : Disk) (names : List String) (suffix : ℕ)
    → free_name fuel d names suffix ≡ none
    → (i : ℕ) → i < fuel
    → contains (candidate d (suffix + i)) names ≡ true
unfolding free_name
free_name-none zero d names suffix h i below = absurd (omega arith)
free_name-none (suc fuel) d names suffix h zero below = rw (add-zero suffix) (ground arith)
free_name-none (suc fuel) d names suffix h (suc i) below =
    let e : suc suffix + i ≡ suffix + suc i = omega arith in
    subst (λ n. contains (candidate d n) names ≡ true) e
      (free_name-none fuel d names (suc suffix) (ground arith) i (omega arith))

pub free_name-new :
    (fuel : ℕ) (d : Disk) (names : List String) (suffix : ℕ) (name : String)
    → free_name fuel d names suffix ≡ some name
    → contains name names ≡ false
unfolding free_name
free_name-new zero d names suffix name h = cc
free_name-new (suc fuel) d names suffix name h =
    ground (arith, free_name-new fuel d names (suc suffix) name)

-- The loop that looks for an archive's name ends within a round for each file and one more, at a name
-- that no file has, if the digits of different numbers differ.
pub free_name-total :
    (d : Disk) (names : List String)
    → IsInjective d.digits
    → (name : String) × (free_name (suc (length names)) d names 0 ≡ some name)
      × (contains name names ≡ false)
free_name-total d names inj = elim (Option-cases (free_name (suc (length names)) d names 0)) [
  | inl out ↦ absurd (
      omega (
        arith,
        pigeonhole (candidate d) (candidate-injective d inj) (suc (length names)) names (λ i below.
            rw (sym (zero-add i)) (free_name-none (suc (length names)) d names 0 out i below)),
      ))
  | inr (name, found) ↦ (name, found, free_name-new (suc (length names)) d names 0 name found)
]
