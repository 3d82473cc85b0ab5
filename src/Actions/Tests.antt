-- ===== src/Actions/Tests.antt =====
-- The discovery in small directories.
use auto_heal.Prelude.{
  Bool, String, String-discrete, [], map, none, refl, some, true, ◌∷◌, ◌≡◌, ◌⊎◌,
}
use auto_heal.Value.{
  Fields, Value, dict_at, dict_of, end, field, get, get_last, get_or, null, obj, put,
}
use auto_heal.Actions.{
  discover, discover_actions, ends_with, get_action_config, get_controller_config, is_playbook,
  is_script, merged_actions, playbook_action, script_action, set_merged_actions, stem_of,
}
use auto_heal.Actions.Onboarding.{
  NamesFiles, exit_status, exit_status-problems, missing_files, problems, unmapped,
}
use auto_heal.Actions.Laws.{from_files, get_action_config-merged_actions, or_value}

three_stems :
    map stem_of ("drain.node.yml" ∷ ".sh" ∷ "README" ∷ []) ≡ "drain.node" ∷ ".sh" ∷ "README" ∷ []
unfolding stem_of
three_stems = refl

-- A script takes the name of a playbook.
same_stem :
    get "restart" (discover_actions ("restart.yml" ∷ []) ("restart.sh" ∷ "notes.txt" ∷ []))
    ≡ some (script_action "restart.sh")
unfolding discover_actions discover get put stem_of ends_with String-discrete
same_stem = refl

abbrev config : Fields
config = field "actions" (obj (field "patch" (obj end) end)) end

get_action_config-merged_actions_example :
    get_action_config
      (set_merged_actions (merged_actions ("restart.yml" ∷ []) ("restart.sh" ∷ []) config))
      end
      "restart"
    ≡ some (
        or_value (get_last "restart" (dict_at "actions" config)) (
          or_value
            (from_files is_script script_action "restart" ("restart.sh" ∷ []))
            (from_files is_playbook playbook_action "restart" ("restart.yml" ∷ []))))
get_action_config-merged_actions_example =
    get_action_config-merged_actions "restart" ("restart.yml" ∷ []) ("restart.sh" ∷ []) config end

-- Before startup the file alone is read.
not_merged :
    (get_action_config none (field "actions" (obj (field "a" null end)) end) "a" ≡ some (some null))
    × (get_action_config none end "a" ≡ none)
    × (get_controller_config (field "controllers" (obj end) end) "local" ≡ some none)
unfolding get_action_config get_controller_config get String-discrete
not_merged = (refl, refl, refl)

abbrev any_file : String → Bool
any_file path = true

nothing_wrong : exit_status (problems any_file ("patch.yml" ∷ []) ("restart.sh" ∷ []) config) ≡ 0
unfolding problems missing_files get stem_of ends_with String-discrete
nothing_wrong = refl

listed_as_unmapped : unmapped ("patch.yml" ∷ []) ("restart.sh" ∷ []) config ≡ "restart" ∷ []
unfolding unmapped get stem_of ends_with String-discrete
listed_as_unmapped = refl

exit_status-problems_example :
    ((from_files is_playbook playbook_action "patch" ("patch.yml" ∷ []) ≡ none)
      ⊎ (from_files is_script script_action "patch" ("restart.sh" ∷ []) ≡ none))
    × ((entry : Value)
        → get "patch" (dict_of (get_or "actions" (obj config) config)) ≡ some entry
        → NamesFiles any_file entry)
exit_status-problems_example =
    exit_status-problems any_file ("patch.yml" ∷ []) ("restart.sh" ∷ []) config "patch"
      nothing_wrong
