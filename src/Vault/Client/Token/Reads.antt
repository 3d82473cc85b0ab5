-- ===== src/Vault/Client/Token/Reads.antt =====
-- What the reads of a client that is used in any way are sent with.

use auto_heal.Dict.{lookup}
use auto_heal.Value.{Value}
use auto_heal.Prelude.{
  All, All-append, Bool-cases, List, Option, Option-cases, String, [], ap, append-nil, append_assoc,
  arith, inl, inr, none, refl, some, subst, sym, true, ℕ, ◌++◌, ◌==◌, ◌∙◌, ◌∷◌, ◌≡◌,
}
use auto_heal.Vault.Client.{
  Client, Deadline, Fetched, HttpCall, JwtFile, Settings, deadline, empty_jwt,
  ensure_kubernetes_token, fresh, get_secret, gone, got, invalidate, is_before, is_configured,
  is_usable, jwt_error, jwt_text, keep_secret, keep_token, login, login_kubernetes, new_client,
  no_jwt, not_configured, parse_login, parse_secret, read, read_secret, resolve_token,
  text_of_token,
}
use auto_heal.Vault.Client.Token.{
  Granted-IsUsable, IsHonest, IsUsable, bare, holds, is_before-deadline, parse_login-Granted,
  static,
}

-- A call of a read of the path: a login, or the read with a token that may be used
abbrev pub IsAllowed : Settings → ℕ → String → HttpCall → Type 0
IsAllowed c now path (login jwt) = Unit
IsAllowed c now path (read p token) = (p ≡ path) × IsUsable c now token

abbrev TokenOk : Settings → ℕ → Fetched String → Type 0
TokenOk c now (gone e) = Unit
TokenOk c now (got token) = IsUsable c now token

-- What a step leaves: an honest client, with allowed calls added
pub record Leaves (c : Settings) (now : ℕ) (path : String) (s t : Client) : Type 0 where
  pub honest : IsHonest c t
  pub new : List HttpCall
  pub grown : t.calls ≡ s.calls ++ new
  pub allowed : All (IsAllowed c now path) new

module _ (c : Settings) (now : ℕ) (path : String) where
  nothing_new : (s : Client) → IsHonest c s → Leaves c now path s s
  nothing_new s h = record { honest = h; new = []; grown = sym (append-nil s.calls); allowed = tt }

  abbrev Both : Client → Fetched (String × Deadline) × List HttpCall → Type 0
  Both s r = Leaves c now path s (keep_token s r).1 × TokenOk c now (keep_token s r).0

  -- An honest client that logs in
  login_kubernetes-Leaves :
      (s : Client)
      → IsHonest c s
      → Leaves c now path s (keep_token s (login_kubernetes c now s.calls)).1
        × TokenOk c now (keep_token s (login_kubernetes c now s.calls)).0
  unfolding login_kubernetes parse_login
  login_kubernetes-Leaves s h = file c.jwt_file refl
    where
      answered :
          (jwt : String) (a : Fetched (String × Deadline))
          → parse_login c now (c.answer s.calls (login jwt)) ≡ a
          → Leaves c now path s (keep_token s (a, s.calls ++ login jwt ∷ [])).1
            × TokenOk c now (keep_token s (a, s.calls ++ login jwt ∷ [])).0
      answered jwt (gone e) same = (
        record {
          honest = elim h [ bare n ↦ bare n | holds token there g ↦ holds token there g ];
          new = login jwt ∷ [];
          grown = refl;
          allowed = (tt, tt);
        },
        tt,
      )
      answered jwt (got (token, expires_at)) same =
          let (g, when) = parse_login-Granted c now s.calls jwt token expires_at same in
          (
            record {
              honest = holds token refl g;
              new = login jwt ∷ [];
              grown = refl;
              allowed = (tt, tt);
            },
            Granted-IsUsable c now token expires_at g (
                ap (is_before now)
                  (g.until_then ∙ ap (λ x. deadline x c.token_refresh_buffer g.lease) when)
                ∙ is_before-deadline now c.token_refresh_buffer g.lease),
          )

      stays : Leaves c now path s (record s { calls = s.calls })
      stays = record {
        honest = elim h [ bare n ↦ bare n | holds token there g ↦ holds token there g ];
        new = [];
        grown = sym (append-nil s.calls);
        allowed = tt;
      }

      file :
          (f : JwtFile)
          → c.jwt_file ≡ f
          → Leaves c now path s (keep_token s (login_kubernetes c now s.calls)).1
            × TokenOk c now (keep_token s (login_kubernetes c now s.calls)).0
      file (jwt_error e) same =
          let it : login_kubernetes c now s.calls ≡ (gone (no_jwt e), s.calls) =
            rw (same, login_kubernetes) refl in
          subst (Both s) (sym it) (stays, tt)
      file (jwt_text jwt) same = elim (Bool-cases (jwt == "")) [
        | inl blank ↦
            let it : login_kubernetes c now s.calls ≡ (gone empty_jwt, s.calls) =
              rw (same, blank, login_kubernetes) refl in
            subst (Both s) (sym it) (stays, tt)
        | inr filled ↦
            let it : login_kubernetes c now s.calls
                ≡ (parse_login c now (c.answer s.calls (login jwt)), s.calls ++ login jwt ∷ []) =
              rw (same, filled, login_kubernetes) refl in
            subst (Both s) (sym it)
              (answered jwt (parse_login c now (c.answer s.calls (login jwt))) refl)
      ]

  -- A step, with a token that may be used where it gives one
  abbrev Ready : Client → Fetched String × Client → Type 0
  Ready s r = Leaves c now path s r.1 × TokenOk c now r.0

  ensure_kubernetes_token-Ready :
      (s : Client) → IsHonest c s → Ready s (ensure_kubernetes_token c now s)
  unfolding ensure_kubernetes_token
  ensure_kubernetes_token-Ready s h =
      elim (Bool-cases (is_usable now s.k8s_token s.k8s_token_expires_at)) [
        | inr spent ↦ rw (spent, ensure_kubernetes_token) (login_kubernetes-Leaves s h)
        | inl usable ↦ rw (usable, ensure_kubernetes_token) (nothing_new s h, held h usable)
      ]
    where
      held :
          IsHonest c s
          → is_usable now s.k8s_token s.k8s_token_expires_at ≡ true
          → IsUsable c now (text_of_token s.k8s_token)
      held (bare n) usable =
          absurd (cc (ap (λ x. is_usable now x s.k8s_token_expires_at) (sym n) ∙ usable))
      held (holds token there g) usable =
          let it : is_usable now (some token) s.k8s_token_expires_at ≡ true =
            ap (λ x. is_usable now x s.k8s_token_expires_at) (sym there) ∙ usable in
          subst (λ x. IsUsable c now (text_of_token x)) (sym there)
            (Granted-IsUsable c now token s.k8s_token_expires_at g (ground (arith, it)))

  resolve_token-Ready : (s : Client) → IsHonest c s → Ready s (resolve_token c now s)
  unfolding resolve_token
  resolve_token-Ready s h = elim (Bool-cases c.is_kubernetes) [
    | inl kubernetes ↦
        let it : resolve_token c now s ≡ ensure_kubernetes_token c now s =
          ground (arith, kubernetes) in
        subst (Ready s) (sym it) (ensure_kubernetes_token-Ready s h)
    | inr plain ↦
        let it : resolve_token c now s ≡ (got c.token, s) = ground (arith, plain) in
        subst (Ready s) (sym it) (nothing_new s h, static plain refl)
  ]

  -- The read after its token
  read_secret-Leaves :
      (s : Client) (r : Fetched String × Client)
      → Ready s r
      → Leaves c now path s (read_secret c now path r).1
  read_secret-Leaves s (gone e, t) (left, ok) = left
  read_secret-Leaves s (got token, t) (left, ok) =
      kept (parse_secret (c.answer t.calls (read path token)))
    where
      after : Client
      after = record t { calls = t.calls ++ read path token ∷ [] }

      made : Leaves c now path s after
      made = record {
        honest = elim left.honest [ bare n ↦ bare n | holds held there g ↦ holds held there g ];
        new = left.new ++ read path token ∷ [];
        grown =
            ap (λ x. x ++ read path token ∷ []) left.grown
            ∙ append_assoc s.calls left.new (read path token ∷ []);
        allowed =
            All-append (IsAllowed c now path) left.new (read path token ∷ []) left.allowed
              ((refl, ok), tt);
      }

      kept : (a : Fetched Value) → Leaves c now path s (keep_secret now path a after).1
      kept (gone e) = made
      kept (got v) = record {
        honest = elim made.honest [ bare n ↦ bare n | holds held there g ↦ holds held there g ];
        new = made.new;
        grown = made.grown;
        allowed = made.allowed;
      }

  get_secret-Leaves : (s : Client) → IsHonest c s → Leaves c now path s (get_secret c now path s).1
  unfolding get_secret
  get_secret-Leaves s h = elim (Bool-cases (is_configured c)) [
    | inr missing ↦
        let it : get_secret c now path s ≡ (gone not_configured, s) = ground (arith, missing) in
        subst (λ r. Leaves c now path s r.1) (sym it) (nothing_new s h)
    | inl configured ↦ elim (Option-cases (fresh now c.cache_ttl (lookup path s.cache))) [
      | inr (v, young) ↦
          let it : get_secret c now path s ≡ (got v, s) =
            rw (configured, get_secret) (rw (young, get_secret) refl) in
          subst (λ r. Leaves c now path s r.1) (sym it) (nothing_new s h)
      | inl old ↦
          let it : get_secret c now path s ≡ read_secret c now path (resolve_token c now s) =
            rw (configured, get_secret) (rw (old, get_secret) refl) in
          subst (λ r. Leaves c now path s r.1) (sym it)
            (read_secret-Leaves s (resolve_token c now s) (resolve_token-Ready s h))
    ]
  ]

-- What reads and invalidations, at any times, make of a new client
pub data Reach (c : Settings) : Client → Type 0 where
  made : Reach c new_client
  reads : {s : Client} → (now : ℕ) (path : String) → Reach c s → Reach c (get_secret c now path s).1
  invalidates : {s : Client} → (path : Option String) → Reach c s → Reach c (invalidate path s)

invalidate-IsHonest :
    (c : Settings) (path : Option String) (s : Client)
    → IsHonest c s
    → IsHonest c (invalidate path s)
unfolding invalidate
invalidate-IsHonest c none s h = bare refl
invalidate-IsHonest c (some path) s (bare n) = bare n
invalidate-IsHonest c (some path) s (holds token there g) = holds token there g

Reach-IsHonest : (c : Settings) {s : Client} → Reach c s → IsHonest c s
Reach-IsHonest c made = bare refl
Reach-IsHonest c (reads {s} now path before) =
    let left = get_secret-Leaves c now path s (Reach-IsHonest c before) in left.honest
Reach-IsHonest c (invalidates {s} path before) =
    invalidate-IsHonest c path s (Reach-IsHonest c before)

-- However a client is used, what a read adds to its calls is logins, and reads of the path with a
-- token that may be used at that time: the static one, or one that a login granted at a time from
-- which less has gone than its lease less the buffer, or than a second where the buffer leaves less.
pub get_secret-IsAllowed :
    (c : Settings) (now : ℕ) (path : String) (s : Client)
    → Reach c s
    → (new : List HttpCall) × ((get_secret c now path s).1.calls ≡ s.calls ++ new)
      × All (IsAllowed c now path) new
get_secret-IsAllowed c now path s before =
    let left = get_secret-Leaves c now path s (Reach-IsHonest c before) in
    (left.new, left.grown, left.allowed)
