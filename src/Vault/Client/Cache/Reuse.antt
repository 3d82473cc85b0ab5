-- ===== src/Vault/Client/Cache/Reuse.antt =====
-- How long a read of the Vault client serves the ones after it.
use auto_heal.Prelude.{
  All, Bool-cases, List, Option-cases, String, String-discrete, [], ap, arith, if◌then◌else◌, inl,
  inr, ltb, none, refl, some, true, ℕ, ◌++◌, ◌+◌, ◌<◌, ◌==◌, ◌∙◌, ◌∷◌, ◌≡◌, ◌≢◌,
}
use auto_heal.Dict.{erase, lookup, lookup-erase, lookup-insert}
use auto_heal.Value.{Value}
use auto_heal.Vault.Client.{
  Client, Deadline, Fetched, HttpCall, Settings, ensure_kubernetes_token, fresh, get_secret, gone,
  got, invalidate, is_configured, keep_secret, keep_token, login_kubernetes, parse_secret, read,
  read_secret, resolve_token,
}
use auto_heal.Vault.Client.Cache.{read_secret-stores}

-- What else is done with the client: a read of any path at a time, or one path is invalidated.
pub data Use : Type 0 where
  reading : ℕ → String → Use
  forgetting : String → Use

unfoldable pub use_all : Settings → List Use → Client → Client
unfolding get_secret invalidate
use_all c [] s = s
use_all c (reading now path ∷ uses) s = use_all c uses (get_secret c now path s).1
use_all c (forgetting path ∷ uses) s = use_all c uses (invalidate (some path) s)

-- A read before that time, or another path than this one is invalidated.
abbrev pub Spares : String → ℕ → Use → Type 0
Spares path until_then (reading now q) = now < until_then
Spares path until_then (forgetting q) = q ≢ path

cache-keep_token :
    (s : Client) (r : Fetched (String × Deadline) × List HttpCall)
    → (keep_token s r).1.cache ≡ s.cache
cache-keep_token s (gone e, calls) = refl
cache-keep_token s (got (token, expires_at), calls) = refl

cache-resolve_token :
    (c : Settings) (now : ℕ) (s : Client) → (resolve_token c now s).1.cache ≡ s.cache
unfolding resolve_token ensure_kubernetes_token
cache-resolve_token c now s = ground (arith, cache-keep_token s (login_kubernetes c now s.calls))

module _ (c : Settings) (path : String) where
  keep_secret-other :
      (now : ℕ) (q : String) (answer : Fetched Value) (s : Client)
      → q ≢ path
      → lookup path (keep_secret now q answer s).1.cache ≡ lookup path s.cache
  keep_secret-other now q (gone e) s differ = refl
  keep_secret-other now q (got v) s differ = ground (arith, lookup-insert q path (now, v) s.cache)

  read_secret-other :
      (now : ℕ) (q : String) (t : Fetched String × Client)
      → q ≢ path
      → lookup path (read_secret c now q t).1.cache ≡ lookup path t.1.cache
  read_secret-other now q (gone e, s) differ = refl
  read_secret-other now q (got token, s) differ =
      keep_secret-other now q (parse_secret (c.answer s.calls (read q token)))
        (record s { calls = s.calls ++ read q token ∷ [] }) differ

  get_secret-other :
      (now : ℕ) (q : String) (s : Client)
      → q ≢ path
      → lookup path (get_secret c now q s).1.cache ≡ lookup path s.cache
  unfolding get_secret
  get_secret-other now q s differ = elim (Bool-cases (is_configured c)) [
    | inr missing ↦ rw (missing, get_secret) refl
    | inl configured ↦ elim (Option-cases (fresh now c.cache_ttl (lookup q s.cache))) [
      | inr (w, young) ↦ rw (configured, get_secret) (rw (young, get_secret) refl)
      | inl old ↦
          rw (configured, get_secret)
            (rw (old, get_secret)
              (read_secret-other now q (resolve_token c now s) differ
                ∙ ap (lookup path) (cache-resolve_token c now s)))
    ]
  ]

  -- A read of the path that is served from the cache
  get_secret-cached :
      (start now : ℕ) (s : Client) (v : Value)
      → is_configured c ≡ true
      → lookup path s.cache ≡ some (start, v)
      → now < start + c.cache_ttl
      → get_secret c now path s ≡ (got v, s)
  unfolding get_secret
  get_secret-cached start now s v configured known young =
      let early : ltb now (start + c.cache_ttl) ≡ true = ground arith in
      rw (configured, get_secret) (rw (known, get_secret) (rw (early, get_secret) refl))

  get_secret-keeps :
      (start now : ℕ) (q : String) (s : Client) (v : Value)
      → is_configured c ≡ true
      → lookup path s.cache ≡ some (start, v)
      → now < start + c.cache_ttl
      → lookup path (get_secret c now q s).1.cache ≡ some (start, v)
  get_secret-keeps start now q s v configured known young = elim (String-discrete q path) [
    | yes same ↦ rw same (rw (get_secret-cached start now s v configured known young) known)
    | no differ ↦ get_secret-other now q s differ ∙ known
  ]

  lookup-use_all :
      (start : ℕ) (v : Value) (uses : List Use) (s : Client)
      → is_configured c ≡ true
      → lookup path s.cache ≡ some (start, v)
      → All (Spares path (start + c.cache_ttl)) uses
      → lookup path (use_all c uses s).cache ≡ some (start, v)
  unfolding use_all invalidate
  lookup-use_all start v [] s configured known spared = known
  lookup-use_all start v (reading now q ∷ uses) s configured known spared =
      lookup-use_all start v uses (get_secret c now q s).1 configured
        (get_secret-keeps start now q s v configured known spared.0) spared.1
  lookup-use_all start v (forgetting q ∷ uses) s configured known spared =
      lookup-use_all start v uses (invalidate (some q) s) configured
        (forgotten spared.0 (lookup-erase q path s.cache) ∙ known) spared.1
    where
      forgotten :
          q ≢ path
          → lookup path (erase q s.cache) ≡ (if q == path then none else lookup path s.cache)
          → lookup path (erase q s.cache) ≡ lookup path s.cache
      forgotten differ e = ground (arith, e)

  -- A read that was not served from the cache serves every later read of its path that comes within
  -- the time to live, whatever paths are read within that time and whatever other paths are
  -- invalidated in between: it gives the same data, and there is no call of Vault.
  pub get_secret-use_all :
      (now later : ℕ) (s : Client) (v : Value) (uses : List Use)
      → fresh now c.cache_ttl (lookup path s.cache) ≡ none
      → (get_secret c now path s).0 ≡ got v
      → All (Spares path (now + c.cache_ttl)) uses
      → later < now + c.cache_ttl
      → get_secret c later path (use_all c uses (get_secret c now path s).1)
        ≡ (got v, use_all c uses (get_secret c now path s).1)
  unfolding get_secret
  get_secret-use_all now later s v uses old first spared young =
      elim (Bool-cases (is_configured c)) [
        | inr missing ↦ absurd (ground arith)
        | inl configured ↦
            let stored : lookup path (get_secret c now path s).1.cache ≡ some (now, v) =
              let kept = read_secret-stores c now path (resolve_token c now s) v in
              ground (arith, kept) in
            get_secret-cached now later (use_all c uses (get_secret c now path s).1) v configured
              (lookup-use_all now v uses (get_secret c now path s).1 configured stored spared) young
      ]
