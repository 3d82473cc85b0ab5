-- ===== src/Vault/Client/Cache.antt =====
-- What the cache of the Vault client promises.
pub mod Reuse
use auto_heal.Prelude.{
  Bool, Bool-cases, List, Option, Option-cases, String, [], ap, arith, false, if◌then◌else◌, inl,
  inr, ltb, none, refl, some, sym, true, ℕ, ◌++◌, ◌+◌, ◌<◌, ◌∙◌, ◌∷◌, ◌≡◌,
}
use auto_heal.Dict.{lookup, lookup-erase, lookup-insert}
use auto_heal.Value.{Value}
use auto_heal.Vault.Client.{
  Client, Fetched, HttpCall, Settings, fresh, get_secret, gone, got, invalidate, is_configured,
  keep_secret, parse_secret, read, read_secret, resolve_token,
}

keep_secret-stores :
    (now : ℕ) (path : String) (answer : Fetched Value) (s : Client) (v : Value)
    → (keep_secret now path answer s).0 ≡ got v
    → lookup path (keep_secret now path answer s).1.cache ≡ some (now, v)
keep_secret-stores now path (gone e) s v h = absurd (cc h)
keep_secret-stores now path (got w) s v h = ground (arith, lookup-insert path path (now, w) s.cache)

pub read_secret-stores :
    (c : Settings) (now : ℕ) (path : String) (t : Fetched String × Client) (v : Value)
    → (read_secret c now path t).0 ≡ got v
    → lookup path (read_secret c now path t).1.cache ≡ some (now, v)
read_secret-stores c now path (gone e, s) v h = absurd (cc h)
read_secret-stores c now path (got token, s) v h =
    keep_secret-stores now path (parse_secret (c.answer s.calls (read path token)))
      (record s { calls = s.calls ++ read path token ∷ [] }) v h

-- What a read gives is not stale: it is in the cache and younger than the time to live, or it is
-- what Vault answered to a call of this read.
pub data IsCurrent (c : Settings) (now : ℕ) (path : String) (s : Client) (v : Value) : Type 0 where
  cached :
      (fetched_at : ℕ)
      → lookup path s.cache ≡ some (fetched_at, v)
      → now < fetched_at + c.cache_ttl
      → IsCurrent c now path s v
  answered :
      (calls : List HttpCall) (token : String)
      → (get_secret c now path s).1.calls ≡ calls ++ read path token ∷ []
      → parse_secret (c.answer calls (read path token)) ≡ got v
      → IsCurrent c now path s v

keep_secret-keeps :
    (now : ℕ) (path : String) (answer : Fetched Value) (s : Client)
    → ((keep_secret now path answer s).0 ≡ answer)
      × ((keep_secret now path answer s).1.calls ≡ s.calls)
keep_secret-keeps now path (gone e) s = (refl, refl)
keep_secret-keeps now path (got v) s = (refl, refl)

read_secret-IsCurrent :
    (c : Settings) (now : ℕ) (path : String) (s : Client) (t : Fetched String × Client) (v : Value)
    → get_secret c now path s ≡ read_secret c now path t
    → (read_secret c now path t).0 ≡ got v
    → IsCurrent c now path s v
read_secret-IsCurrent c now path s (gone e, u) v same h = absurd (cc h)
read_secret-IsCurrent c now path s (got token, u) v same h =
    let kept =
      keep_secret-keeps now path (parse_secret (c.answer u.calls (read path token)))
        (record u { calls = u.calls ++ read path token ∷ [] }) in
    answered u.calls token (ap (λ r. r.1.calls) same ∙ kept.1) (sym kept.0 ∙ h)

fresh-cached :
    (now ttl : ℕ) (o : Option (ℕ × Value)) (v : Value)
    → fresh now ttl o ≡ some v
    → (fetched_at : ℕ) × (o ≡ some (fetched_at, v)) × (now < fetched_at + ttl)
fresh-cached now ttl none v h = absurd (cc h)
fresh-cached now ttl (some (fetched_at, w)) v h = elim (Bool-cases (ltb now (fetched_at + ttl))) [
  | inl young ↦ (fetched_at, ground arith, ground arith)
  | inr old ↦ absurd (ground arith)
]

-- What a read returns is current: the cache holds it and it is younger than the time to live, or
-- Vault answered it to the last call that this read made.
pub get_secret-IsCurrent :
    (c : Settings) (now : ℕ) (path : String) (s : Client) (v : Value)
    → (get_secret c now path s).0 ≡ got v
    → IsCurrent c now path s v
unfolding get_secret
get_secret-IsCurrent c now path s v h = elim (Bool-cases (is_configured c)) [
  | inl configured ↦ elim (Option-cases (fresh now c.cache_ttl (lookup path s.cache))) [
    | inl empty ↦
        let r = resolve_token c now s in
        let same : get_secret c now path s ≡ read_secret c now path r =
          rw (configured, get_secret) (rw (empty, get_secret) refl) in
        read_secret-IsCurrent c now path s r v same (sym (ap (λ x. x.0) same) ∙ h)
    | inr (w, young) ↦
        let kept = fresh-cached now c.cache_ttl (lookup path s.cache) v (ground arith) in
        cached kept.0 kept.1 kept.2
  ]
  | inr missing ↦ absurd (ground arith)
]

-- The data is Vault's answer to the last call of this read.
abbrev pub IsAnswered : Settings → ℕ → String → Client → Value → Type 0
IsAnswered c now path s v =
    (calls : List HttpCall) × (token : String) × ((get_secret c now path s).1.calls
      ≡ calls ++ read path token ∷ [])
    × (parse_secret (c.answer calls (read path token)) ≡ got v)

lookup-invalidate :
    (path : String) (all : Bool) (s : Client)
    → lookup path (invalidate (if all then none else some path) s).cache ≡ none
unfolding invalidate lookup
lookup-invalidate path true s = refl
lookup-invalidate path false s = ground (arith, lookup-erase path path s.cache)

-- After the path or the whole cache is invalidated, a read that gives data made a call of Vault and
-- gives what Vault answered to it: nothing that was cached before is returned.
pub get_secret-invalidate :
    (c : Settings) (now : ℕ) (path : String) (all : Bool) (s : Client) (v : Value)
    → (get_secret c now path (invalidate (if all then none else some path) s)).0 ≡ got v
    → IsAnswered c now path (invalidate (if all then none else some path) s) v
get_secret-invalidate c now path all s v h =
    elim (get_secret-IsCurrent c now path (invalidate (if all then none else some path) s) v h) [
      | cached fetched_at there young ↦ absurd (cc (sym there ∙ lookup-invalidate path all s))
      | answered calls token called parsed ↦ (calls, token, called, parsed)
    ]
