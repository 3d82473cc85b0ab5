-- ===== src/Dict/Keys.antt =====
-- Dicts with one entry to a key, as Python's are, and the removal of many keys.
use auto_heal.Prelude.{
  Bool, List, Option, String, [], arith, contains, false, if◌then◌else◌, none, refl, some, ◌∷◌, ◌≡◌,
}
use auto_heal.Dict.{Dict, erase, insert, lookup, lookup-erase, lookup-insert}

module _ {ℓ} {V : Type ℓ} where
  abbrev pub NodupKeys : Dict V → Type ℓ
  NodupKeys [] = Unit
  NodupKeys ((k, v) ∷ d) = (lookup k d ≡ none) × NodupKeys d

  pub insert-NodupKeys : (k : String) (v : V) (d : Dict V) → NodupKeys d → NodupKeys (insert k v d)
  unfolding insert lookup
  insert-NodupKeys k v [] h = (refl, tt)
  insert-NodupKeys k v ((j, w) ∷ d) h =
      ground (arith, insert-NodupKeys k v d h.1, lookup-insert k j v d)

  -- The keys whose value passes the test, as a comprehension over `d.items()` gives them.
  unfoldable pub keys_where : (V → Bool) → Dict V → List String
  keys_where p [] = []
  keys_where p ((k, v) ∷ d) = let rest = keys_where p d in if p v then k ∷ rest else rest

  -- `for k in ks: del d[k]`
  unfoldable pub erase_all : List String → Dict V → Dict V
  unfolding erase
  erase_all [] d = d
  erase_all (k ∷ ks) d = erase_all ks (erase k d)

  pub lookup-erase_all :
      (ks : List String) (j : String) (d : Dict V)
      → lookup j (erase_all ks d) ≡ (if contains j ks then none else lookup j d)
  unfolding erase_all
  lookup-erase_all [] j d = refl
  lookup-erase_all (k ∷ ks) j d =
      ground (arith, lookup-erase_all ks j (erase k d), lookup-erase k j d)

  abbrev pub passes : (V → Bool) → Option V → Bool
  passes p none = false
  passes p (some v) = p v

  pub contains-keys_where :
      (p : V → Bool) (j : String) (d : Dict V)
      → NodupKeys d
      → contains j (keys_where p d) ≡ passes p (lookup j d)
  unfolding keys_where lookup
  contains-keys_where p j [] h = refl
  contains-keys_where p j ((k, v) ∷ d) h = ground (arith, contains-keys_where p j d h.1)

  erase-fresh : (k j : String) (d : Dict V) → lookup j d ≡ none → lookup j (erase k d) ≡ none
  erase-fresh k j d h = ground (arith, lookup-erase k j d)

  pub erase-NodupKeys : (k : String) (d : Dict V) → NodupKeys d → NodupKeys (erase k d)
  unfolding erase
  erase-NodupKeys k [] h = tt
  erase-NodupKeys k ((j, w) ∷ d) h = ground (arith, erase-NodupKeys k d h.1, erase-fresh k j d h.0)

  pub erase_all-NodupKeys :
      (ks : List String) (d : Dict V) → NodupKeys d → NodupKeys (erase_all ks d)
  unfolding erase_all
  erase_all-NodupKeys [] d h = h
  erase_all-NodupKeys (k ∷ ks) d h = erase_all-NodupKeys ks (erase k d) (erase-NodupKeys k d h)
