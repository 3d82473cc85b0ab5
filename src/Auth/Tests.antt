-- ===== src/Auth/Tests.antt =====
-- Keys and permissions of the shipped config/auth.yaml, and of one whose keys are in Vault.
use auto_heal.Prelude.{Bool, String, String-discrete, false, none, refl, some, true, ◌≡◌}
use auto_heal.Value.{Fields, Items, Value, arr, bool, cons, end, field, get, nil, obj, str}
use auto_heal.Auth.{Source, dispatch, forward, has_permission, resolve_api_keys, unauthorized}

abbrev perm : String → Bool → Items → Items
perm name b rest = cons (obj (field name (bool b) end)) rest

abbrev role_entry : Bool → Bool → Bool → Value
role_entry overrides executes approves = obj (
    field "permissions"
      (arr (
        perm "controller_override" overrides (
          perm "execute_actions" executes (
            perm "audit_read" true
              (perm "approvals_read" true (perm "approve_actions" approves nil))))))
      end)

abbrev pub roles : Fields
roles = field "admin" (role_entry true true true) (
    field "operator" (role_entry false true true)
      (field "readonly" (role_entry false false false) end))

abbrev pub shipped : Source
shipped = record {
  config = field "roles" (obj roles) (
      field "api_keys"
        (obj (
          field "admin-key" (str "admin")
            (field "operator-key" (str "operator") (field "readonly-key" (str "readonly") end))))
        end);
  get_secret = λ path. none;
}

abbrev in_vault : Source
in_vault = record {
  config =
      field "roles" (obj roles)
        (field "api_keys" (obj (field "vault_path" (str "secret/data/keys") end)) end);
  get_secret = λ path. none;
}

shipped_gates :
    (dispatch shipped "/webhook" (some "admin-key") ≡ forward)
    × (dispatch shipped "/webhook" (some "guess") ≡ unauthorized)
    × (dispatch shipped "/webhook" none ≡ unauthorized)
    × (dispatch shipped "/live" none ≡ forward)
unfolding dispatch resolve_api_keys get String-discrete
shipped_gates = (refl, refl, refl, refl)

shipped_permissions :
    (has_permission shipped (some "operator") "execute_actions" ≡ true)
    × (has_permission shipped (some "operator") "controller_override" ≡ false)
    × (has_permission shipped (some "readonly") "execute_actions" ≡ false)
    × (has_permission shipped none "audit_read" ≡ false)
unfolding has_permission get String-discrete
shipped_permissions = (refl, refl, refl, refl)
