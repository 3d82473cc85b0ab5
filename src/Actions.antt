-- ===== src/Actions.antt =====
-- src/actions.py, and the merge of its `discover_actions` with config/actions.yaml at startup
-- (`lifespan` of src/main.py). A directory is the list of its file names, in any order.
pub mod Laws
pub mod Onboarding
mod Tests
use mathlib.Core.Option
use auto_heal.Prelude.{
  Bool, List, Option, String, [], eqb, if◌then◌else◌, map, none, some, true, ◌&&◌, ◌<>◌, ◌==◌, ◌||◌,
  ◌∷◌,
}
use auto_heal.Value.{Fields, Value, dict_at, dict_of, end, field, get, obj, put, str, update}
use Prim.Native.Char.{Char, code}

-- `fname.endswith(suffix)`
unfoldable pub ends_with : String → String → Bool
ends_with suffix String.[] = suffix == ""
ends_with suffix (String.◌∷◌ c s) =
    let rest = ends_with suffix s in if String.◌∷◌ c s == suffix then true else rest

abbrev all_dots : String → Bool
all_dots String.[] = true
all_dots (String.◌∷◌ c s) = eqb (code c) b'.' && all_dots s

-- What stands before the last dot
unfoldable pub before_last_dot : String → Option String
before_last_dot String.[] = none
before_last_dot (String.◌∷◌ c s) = elim (before_last_dot s) [
  | some stem ↦ some (String.◌∷◌ c stem)
  | none ↦ if eqb (code c) b'.' then some "" else none
]

-- `os.path.splitext(fname)[0]`: dots at the front belong to the name
unfoldable pub stem_of : String → String
unfolding before_last_dot
stem_of fname = elim (before_last_dot fname) [
  | none ↦ fname
  | some stem ↦ if all_dots stem then fname else stem
]

abbrev pub is_playbook : String → Bool
is_playbook fname = ends_with ".yml" fname || ends_with ".yaml" fname

abbrev pub is_script : String → Bool
is_script fname = ends_with ".sh" fname || ends_with ".py" fname

abbrev pub playbook_action : String → Value
playbook_action fname = obj (
    field "playbook" (str ("playbooks/" <> fname))
      (field "default_controller" (str "ansible_local") end))

abbrev pub script_action : String → Value
script_action fname =
    obj (field "script" (str ("scripts/" <> fname)) (field "default_controller" (str "local") end))

-- One of the two loops, over the names that pass its test
unfoldable pub discover : (String → Bool) → (String → Value) → List String → Fields → Fields
discover is_kind action [] actions = actions
discover is_kind action (fname ∷ fnames) actions =
    discover is_kind action fnames
      (if is_kind fname then put (stem_of fname) (action fname) actions else actions)

-- `discover_actions`
unfoldable pub discover_actions : List String → List String → Fields
discover_actions playbook_dir script_dir =
    discover is_script script_action script_dir
      (discover is_playbook playbook_action playbook_dir end)

-- `{**discovered, **config_actions.get("actions", {})}`
unfoldable pub merged_actions : List String → List String → Fields → Fields
merged_actions playbook_dir script_dir config =
    update (discover_actions playbook_dir script_dir) (dict_at "actions" config)

-- `set_merged_actions`: the module's `_merged_actions`, None before
abbrev pub set_merged_actions : Fields → Option Fields
set_merged_actions merged = some merged

-- `get_action_config`: from the merged actions, or from the file before startup. The outer `none` is
-- a file without "actions", which raises.
unfoldable pub get_action_config : Option Fields → Fields → String → Option (Option Value)
get_action_config (some merged) config action_name = some (get action_name merged)
get_action_config none config action_name =
    Option.map (λ actions. get action_name (dict_of actions)) (get "actions" config)

-- `get_controller_config`, from the parsed config/controllers.yaml
unfoldable pub get_controller_config : Fields → String → Option (Option Value)
get_controller_config config controller_name =
    Option.map (λ controllers. get controller_name (dict_of controllers)) (get "controllers" config)
