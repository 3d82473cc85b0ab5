-- ===== src/Vault/Reference.antt =====
-- `resolve_vault_ref` of src/vault.py: references of the form vault:<path>#<field>.
use auto_heal.Prelude.{Option, String, eqb, if◌then◌else◌, none, some, ◌<>◌, ◌==◌}
use auto_heal.Value.{Fields, Value, get}
use Prim.Native.Char.{code}

-- What `vault_client.get_secret` gives, or the text of its `VaultUnavailableError`.
pub data SecretAnswer : Type 0 where
  secret : Fields → SecretAnswer
  unavailable : String → SecretAnswer

-- `s.removeprefix(p)` where `s.startswith(p)`, and `none` where it does not
unfoldable pub strip_prefix : String → String → Option String
strip_prefix String.[] s = some s
strip_prefix (String.◌∷◌ c p) String.[] = none
strip_prefix (String.◌∷◌ c p) (String.◌∷◌ d s) =
    let rest = strip_prefix p s in if eqb (code c) (code d) then rest else none

-- `path, _, field = ref.partition("#")`
unfoldable pub partition_hash : String → String × String
partition_hash String.[] = ("", "")
partition_hash (String.◌∷◌ c s) =
    let rest = partition_hash s in
    if eqb (code c) b'#' then ("", s) else (String.◌∷◌ c rest.0, rest.1)

-- A value that is used as it stands, the secret's field, or the text of the error.
pub data Resolved : Type 0 where
  plain : Option String → Resolved
  from_vault : Value → Resolved
  no_secret : String → Resolved

-- `field or default_field`
abbrev field_or : String → Option String → String
field_or name none = name
field_or name (some d) = if name == "" then d else name

abbrev pick : String → String → SecretAnswer → Resolved
pick path name (unavailable e) = no_secret e
pick path name (secret f) = elim (get name f) [
  | none ↦ no_secret ("Vault secret at '" <> (path <> ("' has no field '" <> (name <> "'"))))
  | some v ↦ from_vault v
]

-- What stands behind the prefix, with the whole reference for the error's text.
unfoldable pub resolve_ref : (String → SecretAnswer) → String → String → Option String → Resolved
unfolding partition_hash
resolve_ref get_secret value reference default_field =
    let parts = partition_hash reference in
    let name = field_or parts.1 default_field in
    if name == ""
    then no_secret
        ("vault: reference '" <> (value <> "' has no field and no default field applies"))
    else pick parts.0 name (get_secret parts.0)

-- `resolve_vault_ref`
unfoldable pub resolve_vault_ref :
    (String → SecretAnswer) → Option String → Option String → Resolved
unfolding strip_prefix resolve_ref
resolve_vault_ref get_secret none default_field = plain none
resolve_vault_ref get_secret (some value) default_field = elim (strip_prefix "vault:" value) [
  | none ↦ plain (some value)
  | some reference ↦ resolve_ref get_secret value reference default_field
]
