-- ===== src/Vault/Client/Token.antt =====
-- The tokens that reads of Vault are sent with.
pub mod Reads
use auto_heal.Prelude.{
  Bool-cases, List, Option, Option-cases, String, ap, arith, eqb, false, inl, inr, is_positive, max,
  none, pos_part, refl, some, sym, true, ℕ, ℤ, ◌*◌, ◌+◌, ◌-◌, ◌<◌, ◌∙◌, ◌≡◌, ◌⊎◌,
}
use auto_heal.Vault.Client.{
  Client, Deadline, HttpAnswer, HttpCall, Settings, deadline, gone, got, http, inner, int_in,
  is_before, login, login_refused, login_shape, parse_login, text_in, unreachable,
}

-- What Vault's answer to a login grants: the token, and how many seconds it lasts
abbrev pub granted_token : HttpAnswer → Option String
granted_token (unreachable e) = none
granted_token (http status body_text body) = text_in (inner "client_token" (inner "auth" body))

abbrev pub granted_lease : HttpAnswer → Option ℤ
granted_lease (unreachable e) = none
granted_lease (http status body_text body) = int_in (inner "lease_duration" (inner "auth" body))

-- A token with its deadline is from a login that Vault granted at some time.
pub record Granted (c : Settings) (token : String) (expires_at : Deadline) : Type 0 where
  pub before : List HttpCall
  pub jwt : String
  pub at : ℕ
  pub lease : ℤ
  pub token_granted : granted_token (c.answer before (login jwt)) ≡ some token
  pub lease_granted : granted_lease (c.answer before (login jwt)) ≡ some lease
  pub until_then : expires_at ≡ deadline at c.token_refresh_buffer lease

-- A token that may be used now: the static one, or one that Vault granted with a lease, at a time
-- from which not more has gone than the lease less the buffer, or than a second where the buffer
-- leaves less. A lease of no length has no end.
pub data IsUsable (c : Settings) (now : ℕ) (token : String) : Type 0 where
  static : c.is_kubernetes ≡ false → token ≡ c.token → IsUsable c now token
  leased :
      (before : List HttpCall) (jwt : String) (at : ℕ) (lease : ℤ)
      → granted_token (c.answer before (login jwt)) ≡ some token
      → granted_lease (c.answer before (login jwt)) ≡ some lease
      → (is_positive lease ≡ false)
        ⊎ (now < at + max (pos_part lease * 1000 - c.token_refresh_buffer) 1000)
      → IsUsable c now token

-- The client has no Kubernetes token, or one that was granted.
pub data IsHonest (c : Settings) (s : Client) : Type 0 where
  bare : s.k8s_token ≡ none → IsHonest c s
  holds :
      (token : String)
      → s.k8s_token ≡ some token
      → Granted c token s.k8s_token_expires_at
      → IsHonest c s

-- A granted token before its deadline
pub Granted-IsUsable :
    (c : Settings) (now : ℕ) (token : String) (expires_at : Deadline)
    → Granted c token expires_at
    → is_before now expires_at ≡ true
    → IsUsable c now token
Granted-IsUsable c now token expires_at g early =
    let in_time : is_before now (deadline g.at c.token_refresh_buffer g.lease) ≡ true =
      ap (is_before now) (sym g.until_then) ∙ early in
    leased g.before g.jwt g.at g.lease g.token_granted g.lease_granted
      (elim (Bool-cases (is_positive g.lease)) [
        | inr endless ↦ inl endless
        | inl ends ↦ inr (ground (arith, in_time, ends))
      ])

pub is_before-deadline :
    (now buffer : ℕ) (lease : ℤ) → is_before now (deadline now buffer lease) ≡ true
is_before-deadline now buffer lease = elim (Bool-cases (is_positive lease)) [
  | inl ends ↦ rw (ends, deadline) (ground (arith))
  | inr endless ↦ rw (endless, deadline) refl
]

pub parse_login-Granted :
    (c : Settings) (now : ℕ) (before : List HttpCall) (jwt token : String) (expires_at : Deadline)
    → parse_login c now (c.answer before (login jwt)) ≡ got (token, expires_at)
    → (g : Granted c token expires_at) × (g.at ≡ now)
unfolding parse_login
parse_login-Granted c now before jwt token expires_at h = go (c.answer before (login jwt)) refl h
  where
    go :
        (a : HttpAnswer)
        → c.answer before (login jwt) ≡ a
        → parse_login c now a ≡ got (token, expires_at)
        → (g : Granted c token expires_at) × (g.at ≡ now)
    go (unreachable e) same h' = absurd (cc h')
    go (http status body_text body) same h' =
        let answer : HttpAnswer = http status body_text body in
        elim (Bool-cases (eqb status 200)) [
          | inr refused ↦
              let it : parse_login c now answer ≡ gone (login_refused status body_text) =
                rw (refused, parse_login) refl in
              absurd (cc (sym it ∙ h'))
          | inl ok ↦ elim (Option-cases (granted_token answer)) [
            | inl no_token ↦
                let it : parse_login c now answer ≡ gone login_shape =
                  rw (ok, no_token, parse_login) refl in
                absurd (cc (sym it ∙ h'))
            | inr (t, has_token) ↦ elim (Option-cases (granted_lease answer)) [
              | inl no_lease ↦
                  let it : parse_login c now answer ≡ gone login_shape =
                    rw (ok, has_token, no_lease, parse_login) refl in
                  absurd (cc (sym it ∙ h'))
              | inr (lease, has_lease) ↦
                  let it : parse_login c now answer
                      ≡ got (t, deadline now c.token_refresh_buffer lease) =
                    rw (ok, has_token, has_lease, parse_login) refl in
                  (
                    record {
                      before = before;
                      jwt = jwt;
                      at = now;
                      lease = lease;
                      token_granted = ap granted_token same ∙ has_token ∙ cc (sym it ∙ h');
                      lease_granted = ap granted_lease same ∙ has_lease;
                      until_then = cc (sym it ∙ h');
                    },
                    refl,
                  )
            ]
          ]
        ]
