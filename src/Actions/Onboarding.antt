-- ===== src/Actions/Onboarding.antt =====
-- scripts/check_action_onboarding.py: what it reports of two directories and config/actions.yaml.
-- An entry of the configuration is a dict, and its paths are texts.
use auto_heal.Prelude.{
  Bool, Bool-cases, List, Option, String, [], ap, arith, contains, false, if◌then◌else◌, inl, inr,
  map, none, not, refl, select, some, subst, sym, true, ℕ, ◌++◌, ◌==◌, ◌∙◌, ◌∷◌, ◌≡◌, ◌⊎◌,
}
use auto_heal.Value.{Fields, Value, dict_of, end, field, get, get_or, has, obj, text_at}
use auto_heal.Actions.{ends_with, is_playbook, is_script, playbook_action, script_action, stem_of}
use auto_heal.Actions.Laws.{from_files}

-- The entries of `errors`. A set of names is a list here, in the order of the directory.
pub data Problem : Type 0 where
  duplicate_names : List String → Problem
  no_playbook no_script : String → String → Problem

-- The stems of the files of a kind
abbrev pub stems : (String → Bool) → List String → List String
stems is_kind dir = map stem_of (select is_kind dir)

-- `duplicates`
abbrev pub duplicates : List String → List String → List String
duplicates playbook_dir script_dir =
    select (λ s. contains s (stems is_script script_dir)) (stems is_playbook playbook_dir)

abbrev duplicate_problems : List String → List Problem
duplicate_problems [] = []
duplicate_problems (name ∷ names) = duplicate_names (name ∷ names) ∷ []

-- The test of one key of an entry
abbrev unless_file : (String → Bool) → (String → Problem) → Option String → List Problem
unless_file is_file problem none = []
unless_file is_file problem (some path) = if is_file path then [] else problem path ∷ []

-- The loop over the entries
unfoldable pub missing_files : (String → Bool) → Fields → List Problem
missing_files is_file end = []
missing_files is_file (field name entry entries) =
    unless_file is_file (no_playbook name) (text_at "playbook" (dict_of entry))
    ++ (unless_file is_file (no_script name) (text_at "script" (dict_of entry))
        ++ missing_files is_file entries)

-- The list `errors` of `main`
unfoldable pub problems : (String → Bool) → List String → List String → Fields → List Problem
unfolding stem_of missing_files ends_with
problems is_file playbook_dir script_dir config =
    duplicate_problems (duplicates playbook_dir script_dir)
    ++ missing_files is_file (dict_of (get_or "actions" (obj config) config))

-- `unmapped`, which is only printed
unfoldable pub unmapped : List String → List String → Fields → List String
unmapped playbook_dir script_dir config =
    select (λ name. not (has name (dict_of (get_or "actions" (obj config) config))))
      (stems is_playbook playbook_dir ++ stems is_script script_dir)

-- The script's exit status
abbrev pub exit_status : List Problem → ℕ
exit_status [] = 0
exit_status (p ∷ ps) = 1

not_listed :
    (name s : String) (names : List String)
    → contains name (s ∷ names) ≡ false
    → ((s == name) ≡ false) × (contains name names ≡ false)
not_listed name s names h = ground arith

from_files-stems :
    (is_kind : String → Bool) (action : String → Value) (name : String) (dir : List String)
    → contains name (stems is_kind dir) ≡ false
    → from_files is_kind action name dir ≡ none
unfolding from_files
from_files-stems is_kind action name [] h = refl
from_files-stems is_kind action name (fname ∷ dir) h = elim (Bool-cases (is_kind fname)) [
  | inl on ↦
      let (other, rest) =
        not_listed name (stem_of fname) (stems is_kind dir)
          (sym (ap (contains name) (listed on)) ∙ h) in
      rw (from_files-stems is_kind action name dir rest, from_files)
        (rw (on, from_files) (rw other refl))
  | inr off ↦
      rw
        (
          from_files-stems is_kind action name dir (sym (ap (contains name) (unlisted off)) ∙ h),
          from_files,
        )
        (rw (off, from_files) refl)
]
  where
    listed : is_kind fname ≡ true → stems is_kind (fname ∷ dir) ≡ stem_of fname ∷ stems is_kind dir
    listed on = rw (on, stems) refl

    unlisted : is_kind fname ≡ false → stems is_kind (fname ∷ dir) ≡ stems is_kind dir
    unlisted off = rw (off, stems) refl

none_selected :
    (p : String → Bool) (name : String) (names : List String)
    → select p names ≡ []
    → contains name names ≡ true
    → p name ≡ false
none_selected p name [] h k = cc k
none_selected p name (x ∷ xs) h k = elim (Bool-cases (p x)) [
  | inl chosen ↦ ground (arith, none_selected p name xs)
  | inr passed ↦ elim (Bool-cases (name == x)) [
    | inl same ↦ let e : name ≡ x = ground arith in rw e passed
    | inr other ↦ none_selected p name xs (ground arith) (ground arith)
  ]
]

no_duplicates :
    (names : List String) (more : List Problem) → duplicate_problems names ++ more ≡ [] → names ≡ []
no_duplicates [] more h = refl
no_duplicates (x ∷ xs) more h = cc h

problems-nil :
    (is_file : String → Bool) (playbook_dir script_dir : List String) (config : Fields)
    (name : String)
    → problems is_file playbook_dir script_dir config ≡ []
    → (from_files is_playbook playbook_action name playbook_dir ≡ none)
      ⊎ (from_files is_script script_action name script_dir ≡ none)
unfolding problems
problems-nil is_file playbook_dir script_dir config name h =
    elim (Bool-cases (contains name (stems is_playbook playbook_dir))) [
      | inr absent ↦ inl (from_files-stems is_playbook playbook_action name playbook_dir absent)
      | inl present ↦
          let none_twice =
            no_duplicates (duplicates playbook_dir script_dir)
              (missing_files is_file (dict_of (get_or "actions" (obj config) config))) h in
          inr (
            from_files-stems is_script script_action name script_dir (
              none_selected (λ s. contains s (stems is_script script_dir)) name
                (stems is_playbook playbook_dir) none_twice present))
    ]

nothing_both : (xs ys : List Problem) → xs ++ ys ≡ [] → (xs ≡ []) × (ys ≡ [])
nothing_both [] ys h = (refl, h)
nothing_both (x ∷ xs) ys h = absurd (cc h)

unless_file-nil :
    (is_file : String → Bool) (problem : String → Problem) (o : Option String) (path : String)
    → unless_file is_file problem o ≡ []
    → o ≡ some path
    → is_file path ≡ true
unless_file-nil is_file problem none path h e = absurd (cc e)
unless_file-nil is_file problem (some p) path h e = elim (Bool-cases (is_file p)) [
  | inl there ↦ let same : p ≡ path = cc e in rw (sym same) there
  | inr missing ↦ let clash : problem p ∷ [] ≡ [] = rw missing at h in absurd (cc clash)
]

-- The files that an entry of the configuration names are there.
abbrev pub NamesFiles : (String → Bool) → Value → Type 0
NamesFiles is_file entry =
    (path : String)
    → ((text_at "playbook" (dict_of entry) ≡ some path → is_file path ≡ true)
        × (text_at "script" (dict_of entry) ≡ some path → is_file path ≡ true))

missing_files-nil :
    (is_file : String → Bool) (entries : Fields) (name : String) (entry : Value)
    → missing_files is_file entries ≡ []
    → get name entries ≡ some entry
    → NamesFiles is_file entry
unfolding missing_files get
missing_files-nil is_file end name entry h e = absurd (cc e)
missing_files-nil is_file (field k v entries) name entry h e =
    let (playbook_there, more) =
      nothing_both (unless_file is_file (no_playbook k) (text_at "playbook" (dict_of v)))
        (unless_file is_file (no_script k) (text_at "script" (dict_of v))
          ++ missing_files is_file entries)
        h in
    let (script_there, rest) =
      nothing_both (unless_file is_file (no_script k) (text_at "script" (dict_of v)))
        (missing_files is_file entries) more in
    elim (Bool-cases (k == name)) [
      | inl here ↦
          let same : v ≡ entry = ground (arith, e, here) in
          subst (λ x. NamesFiles is_file x) same
            (λ path. (
              unless_file-nil is_file (no_playbook k) (text_at "playbook" (dict_of v)) path
                  playbook_there,
              unless_file-nil is_file (no_script k) (text_at "script" (dict_of v)) path
                  script_there,
            ))
      | inr elsewhere ↦
          missing_files-nil is_file entries name entry rest (ground (arith, e, elsewhere))
    ]

no_errors : (ps : List Problem) → exit_status ps ≡ 0 → ps ≡ []
no_errors [] h = refl
no_errors (p ∷ ps) h = absurd (omega (arith, h))

-- If the script exits with 0, no name is discovered both as a playbook and as a script, and the
-- playbook and the script that an entry of the configuration names are files. Of two files of one
-- kind with one stem this says nothing: the one that is discovered last still hides the other.
pub exit_status-problems :
    (is_file : String → Bool) (playbook_dir script_dir : List String) (config : Fields)
    (name : String)
    → exit_status (problems is_file playbook_dir script_dir config) ≡ 0
    → ((from_files is_playbook playbook_action name playbook_dir ≡ none)
        ⊎ (from_files is_script script_action name script_dir ≡ none))
      × ((entry : Value)
          → get name (dict_of (get_or "actions" (obj config) config)) ≡ some entry
          → NamesFiles is_file entry)
unfolding problems
exit_status-problems is_file playbook_dir script_dir config name h =
    let clean = no_errors (problems is_file playbook_dir script_dir config) h in
    let entries = dict_of (get_or "actions" (obj config) config) in
    (
      problems-nil is_file playbook_dir script_dir config name clean,
      λ entry e.
          missing_files-nil is_file entries name entry
            (nothing_both (duplicate_problems (duplicates playbook_dir script_dir))
              (missing_files is_file entries) clean).1
            e,
    )
