-- ===== src/Executor/Dispatch/Cleanup.antt =====
-- The temporary files that the executor makes, on every path of `execute_action`.

use auto_heal.Prelude.{
  Bool, Bool-cases, List, Option, String, ap, contains, false, inl, inr, none, refl, some, true,
  ◌∙◌, ◌≡◌,
}
use auto_heal.Value.{Fields, Value, get_or, has, null, str, text_at}
use auto_heal.Executor.Outside.{Event, World}
use auto_heal.Executor.Result.{Ended}
use auto_heal.Executor.Params.{format_value, same, text_params}
use auto_heal.Executor.Format.{Formatted}
use auto_heal.Executor.Shell.{split}
use auto_heal.Executor.Local.{
  run_command, run_local, run_playbook, run_rendered, run_script, run_words,
}
use auto_heal.Executor.Remote.Secrets.{IsRemovable, leftover, run_remote-leftover}
use auto_heal.Executor.Kube.Render.{
  Rendered, fields, lacking, render_kube_action_fields, unreadable,
}
use auto_heal.Executor.Kube.Configuration.{
  Credentials, build_kube_configuration, no_credentials, no_vault, usable,
}
use auto_heal.Executor.Kube.Handlers.{handle}
use auto_heal.Executor.Kube.Secrets.{
  IsFresh, IsNextFresh, leaves, leftover-ran, leftover-remove_all, without_all,
}
use auto_heal.Executor.Kube.Secrets.Token.{build_kube_configuration-leaves}
use auto_heal.Executor.Kube.Calls.{handle-Keeps}
use auto_heal.Executor.Kube.{
  kube_action_verbs, run_kube_action, verb_of, with_credentials, with_rendered,
}
use auto_heal.Executor.Dispatch.{
  execute_action, is_local_controller, is_text, run_here, script_args, with_path,
}

run_words-leftover :
    (w : World) (words : Option (List String)) (events : List Event)
    → leftover (run_words w words events).1 ≡ leftover events
unfolding run_words run_local
run_words-leftover w none events = refl
run_words-leftover w (some cmd) events = leftover-ran events cmd

run_rendered-leftover :
    (w : World) (t : Formatted) (dry_run : Bool) (events : List Event)
    → leftover (run_rendered w t dry_run events).1 ≡ leftover events
unfolding run_rendered
run_rendered-leftover w (Formatted.text s) true events = refl
run_rendered-leftover w (Formatted.text s) false events = run_words-leftover w (split s) events
run_rendered-leftover w (Formatted.missing e) dry_run events = refl
run_rendered-leftover w Formatted.malformed dry_run events = refl

with_credentials-leftover :
    (w : World) (can : IsRemovable w) (verb : String) (rendered : Fields)
    (o : Credentials × List Event)
    → leftover (with_credentials w verb rendered o).1 ≡ leaves o
with_credentials-leftover w can verb rendered (usable paths, now) =
    leftover-remove_all w can paths (handle w verb rendered now).1
    ∙ ap (without_all paths) (handle-Keeps w verb rendered now)
with_credentials-leftover w can verb rendered (no_vault e, now) = refl
with_credentials-leftover w can verb rendered (no_credentials e, now) = refl

with_rendered-leftover :
    (w : World) (can : IsRemovable w) (controller : Fields) (verb : String) (r : Rendered)
    (dry_run : Bool) (events : List Event)
    → IsFresh w events
    → IsNextFresh w events
    → leftover (with_rendered w controller verb r dry_run events).1 ≡ leftover events
with_rendered-leftover w can controller verb (lacking e) dry_run events fresh next = refl
with_rendered-leftover w can controller verb unreadable dry_run events fresh next = refl
with_rendered-leftover w can controller verb (fields f) true events fresh next = refl
with_rendered-leftover w can controller verb (fields f) false events fresh next =
    with_credentials-leftover w can verb f (build_kube_configuration w controller events)
    ∙ build_kube_configuration-leaves w can controller events fresh next

module _ (w : World) (can : IsRemovable w) (controller action params : Fields) (dry_run : Bool)
    (events : List Event) where
  run_kube_action-leftover :
      IsFresh w events
      → IsNextFresh w events
      → leftover (run_kube_action w controller action params dry_run events).1 ≡ leftover events
  unfolding run_kube_action
  run_kube_action-leftover fresh next =
      elim (Bool-cases (contains (verb_of action) kube_action_verbs)) [
        | inl known ↦
            rw (known, run_kube_action)
              (with_rendered-leftover w can controller (verb_of action)
                (render_kube_action_fields w action params) dry_run events fresh next)
        | inr unknown ↦ rw (unknown, run_kube_action) refl
      ]

  with_path-leftover :
      (v : Value) (k : String → List Event → Ended × List Event)
      → ((path : String) → leftover (k path events).1 ≡ leftover events)
      → leftover (with_path w v dry_run k events).1 ≡ leftover events
  with_path-leftover (str path) k h = h path
  with_path-leftover v k h = elim (Bool-cases dry_run) [
    | inl dry ↦ rw (dry, with_path) (h (w.repr v))
    | inr real ↦ rw (real, with_path) refl
  ]

  run_playbook-leftover :
      (path : String) → leftover (run_playbook w path params dry_run events).1 ≡ leftover events
  unfolding run_playbook run_local
  run_playbook-leftover path = elim (Bool-cases dry_run) [
    | inl dry ↦ rw (dry, run_playbook) refl
    | inr real ↦ rw (real, run_playbook) (leftover-ran events _)
  ]

  run_script-leftover :
      (path : String) (args : Option (List String))
      → leftover (run_script w path args dry_run events).1 ≡ leftover events
  unfolding run_script run_local
  run_script-leftover path args = elim (Bool-cases dry_run) [
    | inl dry ↦ rw (dry, run_script) refl
    | inr real ↦ rw (real, run_script) (leftover-ran events _)
  ]

  run_here-leftover : leftover (run_here w action params dry_run events).1 ≡ leftover events
  unfolding run_command
  run_here-leftover = elim (Bool-cases (has "playbook" action)) [
    | inl given ↦
        rw (given, run_here)
          (with_path-leftover (get_or "playbook" null action)
            (λ path. run_playbook w path params dry_run) run_playbook-leftover)
    | inr no_playbook ↦
        rw (no_playbook, run_here)
          (elim (Bool-cases (has "script" action)) [
            | inl given ↦
                rw (given, run_here)
                  (with_path-leftover (get_or "script" null action)
                    (λ path. run_script w path (script_args w params) dry_run)
                    (λ path. run_script-leftover path (script_args w params)))
            | inr no_script ↦
                rw (no_script, run_here)
                  (elim (Bool-cases (has "command" action)) [
                    | inl given ↦
                        rw (given, run_here)
                          (run_rendered-leftover w
                            (format_value (get_or "command" null action)
                              (text_params w same params))
                            dry_run events)
                    | inr bare ↦ rw (bare, run_here) refl
                  ])
          ])
  ]

  -- An execution, local, remote or by the cluster's API, leaves the temporary files that were there
  -- before it and no other, however it ends, if `mkstemp` chooses a name that none of them has, and
  -- again after one file was made, and if `os.unlink` does not fail.
  pub execute_action-leftover :
      IsFresh w events
      → IsNextFresh w events
      → leftover (execute_action w action controller params dry_run events).1 ≡ leftover events
  unfolding execute_action
  execute_action-leftover fresh next =
      elim (Bool-cases (is_text "kubeapi" (text_at "type" controller))) [
        | inl cluster ↦ rw (cluster, execute_action) (run_kube_action-leftover fresh next)
        | inr host ↦
            rw (host, execute_action)
              (elim (Bool-cases (is_local_controller controller)) [
                | inr away ↦
                    rw (away, execute_action)
                      (run_remote-leftover w can controller action params dry_run events fresh)
                | inl here ↦ rw (here, execute_action) run_here-leftover
              ])
      ]
