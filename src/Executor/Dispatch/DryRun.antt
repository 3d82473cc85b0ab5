-- ===== src/Executor/Dispatch/DryRun.antt =====
-- A dry run asks nothing of the outside.
use auto_heal.Executor.Kube.Render.{
  Rendered, fields, lacking, render_kube_action_fields, unreadable,
}
use auto_heal.Executor.Params.{format_value, same, text_params}
use auto_heal.Prelude.{
  Bool-cases, List, Option-cases, String, arith, contains, inl, inr, refl, true, ◌≡◌,
}
use auto_heal.Value.{Fields, get_or, null}
use auto_heal.Executor.Outside.{Event, World}
use auto_heal.Executor.Format.{Formatted}
use auto_heal.Executor.Local.{run_command, run_playbook, run_rendered, run_script}
use auto_heal.Executor.Remote.{
  Built, build_remote_command, invalid, lacks, line, no_command, printed_at, run_built, run_remote,
}
use auto_heal.Executor.Kube.{kube_action_verbs, run_kube_action, verb_of, with_rendered}
use auto_heal.Executor.Dispatch.{execute_action}

run_rendered-dry :
    (w : World) (t : Formatted) (events : List Event) → (run_rendered w t true events).1 ≡ events
unfolding run_rendered
run_rendered-dry w (Formatted.text s) events = refl
run_rendered-dry w (Formatted.missing e) events = refl
run_rendered-dry w Formatted.malformed events = refl

run_built-dry :
    (w : World) (controller : Fields) (host ssh_user : String) (b : Built) (events : List Event)
    → (run_built w controller host ssh_user b true events).1 ≡ events
unfolding run_built
run_built-dry w controller host ssh_user (line s) events = refl
run_built-dry w controller host ssh_user no_command events = refl
run_built-dry w controller host ssh_user (lacks e) events = refl
run_built-dry w controller host ssh_user invalid events = refl

with_rendered-dry :
    (w : World) (controller : Fields) (verb : String) (r : Rendered) (events : List Event)
    → (with_rendered w controller verb r true events).1 ≡ events
with_rendered-dry w controller verb (fields f) events = refl
with_rendered-dry w controller verb (lacking e) events = refl
with_rendered-dry w controller verb unreadable events = refl

module _ (w : World) (controller action params : Fields) (events : List Event) where
  run_remote-dry : (run_remote w controller action params true events).1 ≡ events
  unfolding run_remote
  run_remote-dry = elim (Option-cases (printed_at w "host" controller)) [
    | inl none_given ↦ rw (none_given, run_remote)
    | inr (host, e) ↦
        rw (e, run_remote)
          (elim (Option-cases (printed_at w "ssh_user" controller)) [
            | inl none_given ↦ rw (none_given, run_remote)
            | inr (user, f) ↦
                rw (f, run_remote)
                  (run_built-dry w controller host user (build_remote_command w action params)
                    events)
          ])
  ]

  run_kube_action-dry : (run_kube_action w controller action params true events).1 ≡ events
  unfolding run_kube_action
  run_kube_action-dry = elim (Bool-cases (contains (verb_of action) kube_action_verbs)) [
    | inl known ↦
        rw (known, run_kube_action)
          (with_rendered-dry w controller (verb_of action)
            (render_kube_action_fields w action params) events)
    | inr unknown ↦ rw (unknown, run_kube_action)
  ]

  -- A dry run of any action on any controller runs no process, calls no API, and makes no file.
  pub execute_action-dry : (execute_action w action controller params true events).1 ≡ events
  unfolding execute_action run_playbook run_script run_command
  execute_action-dry = ground (
    arith,
    run_kube_action-dry,
    run_remote-dry,
    run_rendered-dry w (format_value (get_or "command" null action) (text_params w same params))
        events,
  )
