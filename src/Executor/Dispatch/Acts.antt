-- ===== src/Executor/Dispatch/Acts.antt =====
-- When the executor has acted on the outside, the caller has a result.

use auto_heal.Executor.Params.{format_value, same, text_params}
use auto_heal.Prelude.{
  Bool, Bool-cases, List, Option, Option-cases, String, [], append-nil, contains, false, inl, inr,
  none, refl, select, select-append, some, true, ◌++◌, ◌∙◌, ◌∷◌, ◌≡◌, ◌⊎◌,
}
use auto_heal.Value.{Fields, Value, get_or, has, null, str, text_at}
use auto_heal.Vault.Reference.{Resolved, from_vault, no_secret, plain, resolve_vault_ref}
use auto_heal.Executor.Outside.{Event, World, called, ran, removed, wrote}
use auto_heal.Executor.Result.{ActionExecutionResult, Ended, failure, local_result, returned}
use auto_heal.Executor.Format.{Formatted}
use auto_heal.Executor.Shell.{split}
use auto_heal.Executor.Local.{
  run_command, run_local, run_playbook, run_rendered, run_script, run_words,
}
use auto_heal.Executor.Remote.{
  Built, build_remote_command, invalid, lacks, line, materialize, no_command, printed_at,
  resolve_secret_file, run_built, run_remote, run_with_key, unlink,
}
use auto_heal.Executor.Kube.Render.{
  Rendered, fields, lacking, render_kube_action_fields, unreadable,
}
use auto_heal.Executor.Kube.Configuration.{
  Credentials, build_kube_configuration, no_credentials, no_vault, usable,
}
use auto_heal.Executor.Kube.Verbs.{Handled, api_exception, exception, finished}
use auto_heal.Executor.Kube.Handlers.{handle}
use auto_heal.Executor.Kube.{
  close_handler, kube_action_verbs, run_kube_action, verb_of, with_credentials, with_rendered,
}
use auto_heal.Executor.Dispatch.{
  execute_action, is_local_controller, is_text, run_here, script_args, with_path,
}

-- A process that was started or a call of the cluster; the temporary files are no acts.
abbrev pub is_act : Event → Bool
is_act (ran cmd) = true
is_act (called k) = true
is_act (wrote p t) = false
is_act (removed p) = false

abbrev pub acts : List Event → List Event
acts = select is_act

-- The call returned, or it has not acted.
abbrev pub ActsReturn : List Event → Ended × List Event → Type 0
ActsReturn events o = ((r : ActionExecutionResult) × (o.0 ≡ returned r)) ⊎ (acts o.1 ≡ acts events)

run_words-ActsReturn :
    (w : World) (words : Option (List String)) (events : List Event)
    → ActsReturn events (run_words w words events)
unfolding run_words run_local
run_words-ActsReturn w none events = inr refl
run_words-ActsReturn w (some cmd) events = inl (local_result (w.run events cmd), refl)

run_rendered-ActsReturn :
    (w : World) (t : Formatted) (dry_run : Bool) (events : List Event)
    → ActsReturn events (run_rendered w t dry_run events)
unfolding run_rendered
run_rendered-ActsReturn w (Formatted.text s) true events = inr refl
run_rendered-ActsReturn w (Formatted.text s) false events = run_words-ActsReturn w (split s) events
run_rendered-ActsReturn w (Formatted.missing e) dry_run events = inr refl
run_rendered-ActsReturn w Formatted.malformed dry_run events = inr refl

acts-unlink_wrote :
    (w : World) (p t : String) (events : List Event)
    → acts (unlink w p (events ++ wrote p t ∷ [])) ≡ acts events
acts-unlink_wrote w p t events =
    let wrote_only = select-append is_act events (wrote p t ∷ []) ∙ append-nil (acts events) in
    elim (Bool-cases (w.can_unlink (events ++ wrote p t ∷ []) p)) [
      | inl can ↦ rw can (
          select-append is_act (events ++ wrote p t ∷ []) (removed p ∷ [])
          ∙ append-nil (acts (events ++ wrote p t ∷ []))
          ∙ wrote_only)
      | inr cannot ↦ rw cannot wrote_only
    ]

run_with_key-ActsReturn :
    (w : World) (host ssh_user remote_cmd : String) (r : Resolved) (events : List Event)
    → ActsReturn events (run_with_key w host ssh_user remote_cmd (materialize w r events))
run_with_key-ActsReturn w host ssh_user remote_cmd (plain value) events = inl (_, refl)
run_with_key-ActsReturn w host ssh_user remote_cmd (no_secret e) events = inl (_, refl)
run_with_key-ActsReturn w host ssh_user remote_cmd (from_vault (str s)) events = inl (_, refl)
run_with_key-ActsReturn w host ssh_user remote_cmd (from_vault _) events =
    inr (acts-unlink_wrote w (w.temp_path events) "" events)

run_built-ActsReturn :
    (w : World) (controller : Fields) (host ssh_user : String) (b : Built) (dry_run : Bool)
    (events : List Event)
    → ActsReturn events (run_built w controller host ssh_user b dry_run events)
unfolding run_built resolve_secret_file
run_built-ActsReturn w controller host ssh_user (lacks e) dry_run events = inr refl
run_built-ActsReturn w controller host ssh_user invalid dry_run events = inr refl
run_built-ActsReturn w controller host ssh_user no_command dry_run events = inr refl
run_built-ActsReturn w controller host ssh_user (line s) true events = inr refl
run_built-ActsReturn w controller host ssh_user (line s) false events =
    run_with_key-ActsReturn w host ssh_user s
      (resolve_vault_ref (w.get_secret events) (text_at "ssh_key" controller) (some "private_key"))
      events

close_handler-returned :
    (w : World) (h : Handled) → (r : ActionExecutionResult) × (close_handler w h ≡ returned r)
close_handler-returned w (finished r) = (r, refl)
close_handler-returned w (api_exception status reason body) = (_, refl)
close_handler-returned w (exception e) = (failure e, refl)

with_credentials-ActsReturn :
    (w : World) (verb : String) (rendered : Fields) (o : Credentials × List Event)
    (events : List Event)
    → ActsReturn events (with_credentials w verb rendered o)
with_credentials-ActsReturn w verb rendered (usable paths, now) events =
    inl (close_handler-returned w (handle w verb rendered now).0)
with_credentials-ActsReturn w verb rendered (no_vault e, now) events = inl (_, refl)
with_credentials-ActsReturn w verb rendered (no_credentials e, now) events = inl (_, refl)

with_rendered-ActsReturn :
    (w : World) (controller : Fields) (verb : String) (r : Rendered) (dry_run : Bool)
    (events : List Event)
    → ActsReturn events (with_rendered w controller verb r dry_run events)
with_rendered-ActsReturn w controller verb (lacking e) dry_run events = inr refl
with_rendered-ActsReturn w controller verb unreadable dry_run events = inr refl
with_rendered-ActsReturn w controller verb (fields f) true events = inr refl
with_rendered-ActsReturn w controller verb (fields f) false events =
    with_credentials-ActsReturn w verb f (build_kube_configuration w controller events) events

module _ (w : World) (controller action params : Fields) (dry_run : Bool)
    (events : List Event) where
  run_remote-ActsReturn : ActsReturn events (run_remote w controller action params dry_run events)
  unfolding run_remote
  run_remote-ActsReturn = elim (Option-cases (printed_at w "host" controller)) [
    | inl none_given ↦ rw (none_given, run_remote) (inr refl)
    | inr (host, e) ↦
        rw (e, run_remote)
          (elim (Option-cases (printed_at w "ssh_user" controller)) [
            | inl none_given ↦ rw (none_given, run_remote) (inr refl)
            | inr (user, f) ↦
                rw (f, run_remote)
                  (run_built-ActsReturn w controller host user
                    (build_remote_command w action params) dry_run events)
          ])
  ]

  run_kube_action-ActsReturn :
      ActsReturn events (run_kube_action w controller action params dry_run events)
  unfolding run_kube_action
  run_kube_action-ActsReturn = elim (Bool-cases (contains (verb_of action) kube_action_verbs)) [
    | inl known ↦
        rw (known, run_kube_action)
          (with_rendered-ActsReturn w controller (verb_of action)
            (render_kube_action_fields w action params) dry_run events)
    | inr unknown ↦ rw (unknown, run_kube_action) (inr refl)
  ]

  with_path-ActsReturn :
      (v : Value) (k : String → List Event → Ended × List Event)
      → ((path : String) → ActsReturn events (k path events))
      → ActsReturn events (with_path w v dry_run k events)
  with_path-ActsReturn (str path) k h = h path
  with_path-ActsReturn v k h = elim (Bool-cases dry_run) [
    | inl dry ↦ rw (dry, with_path) (h (w.repr v))
    | inr real ↦ rw (real, with_path) (inr refl)
  ]

  run_playbook-ActsReturn :
      (path : String) → ActsReturn events (run_playbook w path params dry_run events)
  unfolding run_playbook run_local
  run_playbook-ActsReturn path = elim (Bool-cases dry_run) [
    | inl dry ↦ rw (dry, run_playbook) (inr refl)
    | inr real ↦ rw (real, run_playbook) (inl (_, refl))
  ]

  run_script-ActsReturn :
      (path : String) (args : Option (List String))
      → ActsReturn events (run_script w path args dry_run events)
  unfolding run_script run_local
  run_script-ActsReturn path args = elim (Bool-cases dry_run) [
    | inl dry ↦ rw (dry, run_script) (inr refl)
    | inr real ↦ rw (real, run_script) (inl (_, refl))
  ]

  run_here-ActsReturn : ActsReturn events (run_here w action params dry_run events)
  unfolding run_command
  run_here-ActsReturn = elim (Bool-cases (has "playbook" action)) [
    | inl given ↦
        rw (given, run_here)
          (with_path-ActsReturn (get_or "playbook" null action)
            (λ path. run_playbook w path params dry_run) run_playbook-ActsReturn)
    | inr no_playbook ↦
        rw (no_playbook, run_here)
          (elim (Bool-cases (has "script" action)) [
            | inl given ↦
                rw (given, run_here)
                  (with_path-ActsReturn (get_or "script" null action)
                    (λ path. run_script w path (script_args w params) dry_run)
                    (λ path. run_script-ActsReturn path (script_args w params)))
            | inr no_script ↦
                rw (no_script, run_here)
                  (elim (Bool-cases (has "command" action)) [
                    | inl given ↦
                        rw (given, run_here)
                          (run_rendered-ActsReturn w
                            (format_value (get_or "command" null action)
                              (text_params w same params))
                            dry_run events)
                    | inr bare ↦ rw (bare, run_here) (inr refl)
                  ])
          ])
  ]

  -- The executor starts a process or calls the cluster only where it then returns a result: a call
  -- that ends without one, by None or by an exception, has done neither.
  pub execute_action-ActsReturn :
      ActsReturn events (execute_action w action controller params dry_run events)
  unfolding execute_action run_command
  execute_action-ActsReturn = elim (Bool-cases (is_text "kubeapi" (text_at "type" controller))) [
    | inl cluster ↦ rw (cluster, execute_action) run_kube_action-ActsReturn
    | inr host ↦
        rw (host, execute_action)
          (elim (Bool-cases (is_local_controller controller)) [
            | inr away ↦ rw (away, execute_action) run_remote-ActsReturn
            | inl here ↦ rw (here, execute_action) run_here-ActsReturn
          ])
  ]
