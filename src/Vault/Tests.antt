-- ===== src/Vault/Tests.antt =====
-- The Vault client at concrete reads.

use text.Mathlib.TextEquality.{eq_iff}
use auto_heal.Vault.Client.Cache.Reuse.{Use, forgetting, get_secret-use_all, reading, use_all}
use auto_heal.Prelude.{
  All, List, String, String-discrete, [], arith, false, none, pos, refl, some, true, ◌++◌, ◌∷◌, ◌≡◌,
  ◌≢◌,
}
use auto_heal.Dict.{erase, insert, lookup}
use auto_heal.Value.{Value, end, field, get, num, obj, str}
use auto_heal.Vault.Client.Token.Reads.{IsAllowed, get_secret-IsAllowed, made, reads}
use auto_heal.Vault.Client.{
  Client, HttpCall, Settings, ensure_kubernetes_token, get_secret, got, http, invalidate,
  is_configured, jwt_text, login, login_kubernetes, new_client, parse_login, parse_secret, read,
  resolve_token, until,
}
use auto_heal.Vault.Client.Cache.{
  IsAnswered, IsCurrent, get_secret-IsCurrent, get_secret-invalidate,
}

abbrev keys : Value
keys = obj (field "ops-key" (str "operator") end)

abbrev settings : Settings
settings = record {
  addr = "https://vault";
  token = "";
  role = "auto-healer";
  is_kubernetes = true;
  cache_ttl = 300000;
  token_refresh_buffer = 30000;
  jwt_file = jwt_text "jwt";
  answer = λ calls call. elim call [
    | read path token ↦ http 200 "" (some (obj (field "data" (obj (field "data" keys end)) end)))
    | login jwt ↦ http 200 "" (
        some (
          obj (
            field "auth"
              (obj (field "client_token" (str "s.1") (field "lease_duration" (num (pos 3600)) end)))
              end)))
  ];
}

abbrev first_client : Client
first_client = record { cache = []; k8s_token = none; k8s_token_expires_at = until 0; calls = [] }

first_read : (get_secret settings 1000 "secret/data/keys" first_client).0 ≡ got keys
unfolding get_secret is_configured lookup resolve_token ensure_kubernetes_token login_kubernetes
    parse_login parse_secret get String-discrete
first_read = refl

token_kept :
    (get_secret settings 1000 "secret/data/keys" first_client).1.k8s_token_expires_at
    ≡ until 3571000
unfolding get_secret is_configured lookup resolve_token ensure_kubernetes_token login_kubernetes
    parse_login parse_secret get String-discrete
token_kept = refl

abbrev third : String
third = "secret/data/third"

other_path : third ≢ "secret/data/keys"
other_path e = cc ((eq_iff "secret/data/third" "secret/data/keys").1 e)

-- Another path is read in between, and a third one is invalidated.
abbrev between_reads : List Use
between_reads = reading 5000 "secret/data/other" ∷ forgetting third ∷ []

get_secret-use_all_example :
    get_secret settings 200000 "secret/data/keys"
      (use_all settings between_reads (get_secret settings 1000 "secret/data/keys" first_client).1)
    ≡ (
      got keys,
      use_all settings between_reads (get_secret settings 1000 "secret/data/keys" first_client).1,
    )
unfolding lookup
get_secret-use_all_example =
    get_secret-use_all settings "secret/data/keys" 1000 200000 first_client keys between_reads refl
      first_read (omega arith, (other_path, tt)) (omega arith)

get_secret-IsCurrent_example : IsCurrent settings 1000 "secret/data/keys" first_client keys
get_secret-IsCurrent_example =
    get_secret-IsCurrent settings 1000 "secret/data/keys" first_client keys first_read

-- A client with the keys in its cache, which are then invalidated
abbrev invalidated : Client
invalidated =
    invalidate (some "secret/data/keys")
      (get_secret settings 1000 "secret/data/keys" first_client).1

read_again : (get_secret settings 2000 "secret/data/keys" invalidated).0 ≡ got keys
unfolding get_secret invalidate is_configured lookup resolve_token ensure_kubernetes_token
    login_kubernetes parse_login parse_secret get String-discrete erase insert
read_again = refl

get_secret-invalidate_example : IsAnswered settings 2000 "secret/data/keys" invalidated keys
get_secret-invalidate_example =
    get_secret-invalidate settings 2000 "secret/data/keys" false
      (get_secret settings 1000 "secret/data/keys" first_client).1 keys read_again

-- An hour later the token's time is over, so the read logs in again first.
abbrev used_client : Client
used_client = (get_secret settings 1000 "secret/data/keys" new_client).1

renewed :
    (get_secret settings 4000000 "secret/data/keys" used_client).1.calls
    ≡ login "jwt" ∷ read "secret/data/keys" "s.1" ∷ login "jwt" ∷ read "secret/data/keys" "s.1" ∷ []
unfolding get_secret is_configured lookup resolve_token ensure_kubernetes_token login_kubernetes
    parse_login parse_secret get insert String-discrete
renewed = refl

get_secret-IsAllowed_example :
    (new : List HttpCall) × ((get_secret settings 4000000 "secret/data/keys" used_client).1.calls
      ≡ used_client.calls ++ new)
    × All (IsAllowed settings 4000000 "secret/data/keys") new
get_secret-IsAllowed_example =
    get_secret-IsAllowed settings 4000000 "secret/data/keys" used_client
      (reads 1000 "secret/data/keys" made)
