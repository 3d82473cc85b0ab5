-- ===== src/Auth.antt =====
-- src/auth.py: API keys, their scopes and the permissions of roles. The configuration is the parsed
-- config/auth.yaml; `get_secret` is what `vault_client.get_secret` gives at the time of the request,
-- `none` where it raises `VaultUnavailableError`.
pub mod Laws
pub mod Tests
use auto_heal.Prelude.{
  Bool, List, Option, String, [], contains, false, if◌then◌else◌, none, not, some, true, ◌&&◌, ◌==◌,
  ◌∷◌,
}
use auto_heal.Value.{
  Fields, Items, Value, arr, cons, dict_at, end, flag_at, get, get_or, has, member, nil, null, obj,
  str, text_at,
}

abbrev pub public_paths : List String
public_paths = "/health" ∷ "/live" ∷ "/ready" ∷ []

-- What the program reads of its configuration and of Vault in one request.
pub record Source : Type 0 where
  pub config : Fields
  pub get_secret : String → Option Fields

abbrev fail_closed : Option Fields → Fields
fail_closed none = end
fail_closed (some secret) = secret

-- `_resolve_api_keys`
unfoldable pub resolve_api_keys : Source → Fields
resolve_api_keys s =
    let api_keys = dict_at "api_keys" s.config in
    elim (text_at "vault_path" api_keys) [
      | none ↦ api_keys
      | some path ↦ if path == "" then api_keys else fail_closed (s.get_secret path)
    ]

pub data Gate : Type 0 where
  forward unauthorized : Gate

-- `api_key and api_key in valid_api_keys`
abbrev is_known : Option String → Fields → Bool
is_known none keys = false
is_known (some key) keys = not (key == "") && has key keys

-- `APIKeyAuthMiddleware.dispatch`: to the handler, or 401
unfoldable pub dispatch : Source → String → Option String → Gate
dispatch s path api_key =
    if contains path public_paths
    then forward
    else if is_known api_key (resolve_api_keys s)
    then forward
    else unauthorized

pub record Scope : Type 0 where
  pub role : Option String
  pub allowed_actions : Option Items
  pub allowed_controllers : Option Items

-- A list of names: `none` for a null or missing one. What is neither reads as the empty list.
abbrev as_list : Value → Option Items
as_list null = none
as_list (arr vs) = some vs
as_list _ = some nil

-- `_normalize_key_entry`; `none` is a key that is not in the map
unfoldable pub normalize_key_entry : Option Value → Scope
normalize_key_entry (some (str role)) = record {
  role = some role;
  allowed_actions = none;
  allowed_controllers = none;
}
normalize_key_entry (some (obj entry)) = record {
  role = text_at "role" entry;
  allowed_actions = as_list (get_or "allowed_actions" null entry);
  allowed_controllers = as_list (get_or "allowed_controllers" null entry);
}
normalize_key_entry _ = record { role = none; allowed_actions = none; allowed_controllers = none }

-- `get_key_scope`
unfoldable pub get_key_scope : Source → String → Scope
get_key_scope s api_key = normalize_key_entry (get api_key (resolve_api_keys s))

-- `get_role_from_api_key`
unfoldable pub get_role_from_api_key : Source → String → Option String
unfolding get_key_scope
get_role_from_api_key s api_key = (get_key_scope s api_key).role

-- `allowed is None or name in allowed`
abbrev pub allows : Option Items → String → Bool
allows none name = true
allows (some names) name = member name names

-- `is_action_allowed_for_key`
unfoldable pub is_action_allowed_for_key : Source → String → String → Bool
is_action_allowed_for_key s api_key event_type =
    allows (get_key_scope s api_key).allowed_actions event_type

-- `is_controller_allowed_for_key`
unfoldable pub is_controller_allowed_for_key : Source → String → String → Bool
is_controller_allowed_for_key s api_key controller_name =
    allows (get_key_scope s api_key).allowed_controllers controller_name

-- The loop of `has_permission`: the first entry that names the permission decides.
unfoldable pub granted : String → Items → Bool
granted permission nil = false
granted permission (cons (obj perm) perms) =
    let rest = granted permission perms in
    if has permission perm then flag_at permission perm else rest
granted permission (cons (str perm) perms) =
    let rest = granted permission perms in if perm == permission then true else rest
granted permission (cons _ perms) = granted permission perms

abbrev as_items : Value → Items
as_items (arr vs) = vs
as_items _ = nil

-- The permissions of a role; an unknown role and None have none.
unfoldable pub role_perms : Source → Option String → Items
role_perms s none = nil
role_perms s (some role) =
    as_items (get_or "permissions" null (dict_at role (dict_at "roles" s.config)))

-- `has_permission`
unfoldable pub has_permission : Source → Option String → String → Bool
unfolding granted role_perms
has_permission s role permission = granted permission (role_perms s role)
