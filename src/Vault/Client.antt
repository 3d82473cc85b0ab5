-- ===== src/Vault/Client.antt =====
-- `VaultClient` of src/vault.py: the cache of secrets and the Vault token.
pub mod Cache
pub mod Token
use auto_heal.Prelude.{
  Bool, List, Option, String, [], eqb, false, if◌then◌else◌, is_positive, ltb, max, none, not,
  pos_part, some, true, ℕ, ℤ, ◌&&◌, ◌*◌, ◌++◌, ◌+◌, ◌-◌, ◌==◌, ◌∷◌,
}
use auto_heal.Dict.{Dict, erase, insert, lookup}
use auto_heal.Value.{Value, as_int, as_text, get, obj}

-- The messages of `VaultUnavailableError`, each with what varies in it besides the settings: the
-- exception's text, or the status and the answer's text
pub data VaultError : Type 0 where
  not_configured : VaultError
  no_jwt : String → VaultError
  empty_jwt : VaultError
  login_unreachable : String → VaultError
  login_refused : ℕ → String → VaultError
  login_shape : VaultError
  vault_unreachable : String → VaultError
  read_refused : ℕ → String → VaultError
  secret_shape : VaultError

-- A method's result, or the error it raises
pub data Fetched {ℓ} (A : Type ℓ) : Type ℓ where
  got : A → Fetched A
  gone : VaultError → Fetched A

-- What `requests.get` and `requests.post` end in: the status, the text and the parsed JSON body, or
-- the text of the exception. `none` is a body that is no JSON.
pub data HttpAnswer : Type 0 where
  http : ℕ → String → Option Value → HttpAnswer
  unreachable : String → HttpAnswer

pub data HttpCall : Type 0 where
  -- a read of the path, with the Vault token
  read : String → String → HttpCall
  -- a login with the service account's JWT
  login : String → HttpCall

-- The service account's token, stripped, or the text of the `OSError`
pub data JwtFile : Type 0 where
  jwt_text : String → JwtFile
  jwt_error : String → JwtFile

pub record Settings : Type 0 where
  pub addr : String
  pub token : String
  pub role : String
  pub is_kubernetes : Bool
  pub cache_ttl : ℕ
  pub token_refresh_buffer : ℕ
  pub jwt_file : JwtFile
  -- the answer to a call after those in the list
  pub answer : List HttpCall → HttpCall → HttpAnswer

-- When a token ends: `float("inf")` or a time
pub data Deadline : Type 0 where
  never : Deadline
  until : ℕ → Deadline

pub record Client : Type 0 where
  pub cache : Dict (ℕ × Value)
  pub k8s_token : Option String
  pub k8s_token_expires_at : Deadline
  pub calls : List HttpCall

-- A client as it is made
abbrev pub new_client : Client
new_client = record { cache = []; k8s_token = none; k8s_token_expires_at = until 0; calls = [] }

-- `is_configured`
unfoldable pub is_configured : Settings → Bool
is_configured c =
    not (c.addr == "") && (if c.is_kubernetes then not (c.role == "") else not (c.token == ""))

abbrev pub is_before : ℕ → Deadline → Bool
is_before now never = true
is_before now (until t) = ltb now t

abbrev pub is_usable : ℕ → Option String → Deadline → Bool
is_usable now none expires_at = false
is_usable now (some token) expires_at = not (token == "") && is_before now expires_at

-- `body[k]`, as often as it stands; `none` where Python raises
abbrev pub inner : String → Option Value → Option Value
inner k (some (obj fields)) = get k fields
inner k body = none

abbrev pub text_in : Option Value → Option String
text_in none = none
text_in (some v) = as_text v

abbrev pub int_in : Option Value → Option ℤ
int_in none = none
int_in (some v) = as_int v

abbrev malformed_login : Fetched (String × Deadline)
malformed_login = gone login_shape

-- A lease is in seconds, the deadline in milliseconds.
abbrev pub deadline : ℕ → ℕ → ℤ → Deadline
deadline now buffer lease_duration =
    if is_positive lease_duration
    then until (now + max (pos_part lease_duration * 1000 - buffer) 1000)
    else never

-- The answer to a login. Vault documents a text and a whole number there; any other value counts as
-- an unexpected shape.
unfoldable pub parse_login : Settings → ℕ → HttpAnswer → Fetched (String × Deadline)
unfolding get
parse_login c now (unreachable e) = gone (login_unreachable e)
parse_login c now (http status body_text body) =
    if not (eqb status 200)
    then gone (login_refused status body_text)
    else elim (text_in (inner "client_token" (inner "auth" body))) [
      | none ↦ malformed_login
      | some client_token ↦ elim (int_in (inner "lease_duration" (inner "auth" body))) [
        | none ↦ malformed_login
        | some lease_duration ↦
            got (client_token, deadline now c.token_refresh_buffer lease_duration)
      ]
    ]

-- `_login_kubernetes`
unfoldable pub login_kubernetes :
    Settings → ℕ → List HttpCall → Fetched (String × Deadline) × List HttpCall
login_kubernetes c now calls = elim c.jwt_file [
  | jwt_error e ↦ (gone (no_jwt e), calls)
  | jwt_text jwt ↦
      if jwt == ""
      then (gone empty_jwt, calls)
      else (parse_login c now (c.answer calls (login jwt)), calls ++ login jwt ∷ [])
]

-- The two assignments after the login, none if it raises
abbrev pub keep_token :
    Client → Fetched (String × Deadline) × List HttpCall → Fetched String × Client
keep_token s (gone e, calls) = (gone e, record s { calls = calls })
keep_token s (got (token, expires_at), calls) = (
  got token,
  record s { k8s_token = some token; k8s_token_expires_at = expires_at; calls = calls },
)

abbrev pub text_of_token : Option String → String
text_of_token none = ""
text_of_token (some token) = token

-- `_ensure_kubernetes_token`
unfoldable pub ensure_kubernetes_token : Settings → ℕ → Client → Fetched String × Client
ensure_kubernetes_token c now s =
    if is_usable now s.k8s_token s.k8s_token_expires_at
    then (got (text_of_token s.k8s_token), s)
    else keep_token s (login_kubernetes c now s.calls)

-- `_resolve_token`
unfoldable pub resolve_token : Settings → ℕ → Client → Fetched String × Client
resolve_token c now s =
    if c.is_kubernetes then ensure_kubernetes_token c now s else (got c.token, s)

-- `body["data"]["data"]` of an answer with the status 200
unfoldable pub parse_secret : HttpAnswer → Fetched Value
unfolding get
parse_secret (unreachable e) = gone (vault_unreachable e)
parse_secret (http status body_text body) =
    if not (eqb status 200)
    then gone (read_refused status body_text)
    else elim (inner "data" (inner "data" body)) [
      | none ↦ gone secret_shape
      | some secret_data ↦ got secret_data
    ]

-- The cache after a read
abbrev pub keep_secret : ℕ → String → Fetched Value → Client → Fetched Value × Client
keep_secret now path (gone e) s = (gone e, s)
keep_secret now path (got secret_data) s =
    (got secret_data, record s { cache = insert path (now, secret_data) s.cache })

abbrev pub read_secret : Settings → ℕ → String → Fetched String × Client → Fetched Value × Client
read_secret c now path (gone e, s) = (gone e, s)
read_secret c now path (got token, s) =
    keep_secret now path (parse_secret (c.answer s.calls (read path token)))
      (record s { calls = s.calls ++ read path token ∷ [] })

-- The cached data, if it is young enough
abbrev pub fresh : ℕ → ℕ → Option (ℕ × Value) → Option Value
fresh now ttl none = none
fresh now ttl (some (fetched_at, secret_data)) =
    if ltb now (fetched_at + ttl) then some secret_data else none

-- `get_secret`, at the time `now`
unfoldable pub get_secret : Settings → ℕ → String → Client → Fetched Value × Client
get_secret c now path s =
    if not (is_configured c)
    then (gone not_configured, s)
    else elim (fresh now c.cache_ttl (lookup path s.cache)) [
      | some secret_data ↦ (got secret_data, s)
      | none ↦ read_secret c now path (resolve_token c now s)
    ]

-- `invalidate`
unfoldable pub invalidate : Option String → Client → Client
invalidate none s = record s { cache = []; k8s_token = none; k8s_token_expires_at = until 0 }
invalidate (some path) s = record s { cache = erase path s.cache }
