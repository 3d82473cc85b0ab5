-- ===== src/Actions/Laws.antt =====
-- Which definition of an action wins.
use auto_heal.Prelude.{
  Bool, Bool-cases, List, Option, Option-cases, String, [], ap, false, if◌then◌else◌, inl, inr,
  none, refl, some, true, ◌&&◌, ◌==◌, ◌∙◌, ◌∷◌, ◌≡◌,
}
use auto_heal.Value.{Fields, Value, dict_at, end, get, get-put, get-update, get_last, put}
use auto_heal.Actions.{
  discover, discover_actions, get_action_config, is_playbook, is_script, merged_actions,
  playbook_action, script_action, set_merged_actions, stem_of,
}

-- The definition that the last file of a kind with this stem gives
unfoldable pub from_files : (String → Bool) → (String → Value) → String → List String → Option Value
from_files is_kind action name [] = none
from_files is_kind action name (fname ∷ fnames) = elim (from_files is_kind action name fnames) [
  | some v ↦ some v
  | none ↦ if is_kind fname && stem_of fname == name then some (action fname) else none
]

-- The first definition, or else the second
abbrev pub or_value : Option Value → Option Value → Option Value
or_value none v = v
or_value (some v) w = some v

get-put_if :
    (listed : Bool) (name stem : String) (v : Value) (actions : Fields)
    → get name (if listed then put stem v actions else actions)
      ≡ or_value (if listed && stem == name then some v else none) (get name actions)
get-put_if false name stem v actions = refl
get-put_if true name stem v actions =
    get-put stem name v actions
    ∙ (elim (Bool-cases (stem == name)) [ inl same ↦ rw same refl | inr other ↦ rw other refl ])

get-discover :
    (is_kind : String → Bool) (action : String → Value) (name : String) (fnames : List String)
    (actions : Fields)
    → get name (discover is_kind action fnames actions)
      ≡ or_value (from_files is_kind action name fnames) (get name actions)
unfolding discover from_files
get-discover is_kind action name [] actions = refl
get-discover is_kind action name (fname ∷ fnames) actions =
    let next = if is_kind fname then put (stem_of fname) (action fname) actions else actions in
    get-discover is_kind action name fnames next
    ∙ (elim (Option-cases (from_files is_kind action name fnames)) [
      | inr (v, e) ↦ rw (e, from_files) refl
      | inl e ↦
          rw (e, from_files)
            (get-put_if (is_kind fname) name (stem_of fname) (action fname) actions)
    ])

or_value-none : (o : Option Value) → or_value o none ≡ o
or_value-none none = refl
or_value-none (some v) = refl

get-merged_actions :
    (name : String) (playbook_dir script_dir : List String) (config : Fields)
    → get name (merged_actions playbook_dir script_dir config)
      ≡ or_value (get_last name (dict_at "actions" config)) (
          or_value
            (from_files is_script script_action name script_dir)
            (from_files is_playbook playbook_action name playbook_dir))
unfolding merged_actions discover_actions get
get-merged_actions name playbook_dir script_dir config =
    let given = dict_at "actions" config in
    get-update name (discover_actions playbook_dir script_dir) given
    ∙ (elim (Option-cases (get_last name given)) [
      | inr (v, e) ↦ rw e refl
      | inl e ↦ rw e (
          get-discover is_script script_action name script_dir
            (discover is_playbook playbook_action playbook_dir end)
          ∙ ap (or_value (from_files is_script script_action name script_dir)) (
              get-discover is_playbook playbook_action name playbook_dir end
              ∙ or_value-none (from_files is_playbook playbook_action name playbook_dir)))
    ])

-- After startup an action is what config/actions.yaml says, or else the last script of that name, or
-- else the last playbook of that name; there are no others, and the lookup does not raise.
pub get_action_config-merged_actions :
    (name : String) (playbook_dir script_dir : List String) (config file : Fields)
    → get_action_config
        (set_merged_actions (merged_actions playbook_dir script_dir config))
        file
        name
      ≡ some (
          or_value (get_last name (dict_at "actions" config)) (
            or_value
              (from_files is_script script_action name script_dir)
              (from_files is_playbook playbook_action name playbook_dir)))
unfolding get_action_config
get_action_config-merged_actions name playbook_dir script_dir config file =
    ap some (get-merged_actions name playbook_dir script_dir config)
