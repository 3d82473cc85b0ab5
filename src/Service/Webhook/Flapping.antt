-- ===== src/Service/Webhook/Flapping.antt =====
-- The cooldown as the webhook handler keeps it: a run that ended blocks the next one.

use auto_heal.Cooldown.Laws.{IsProper, seconds_remaining-record_run_self}
use auto_heal.Prelude.{
  Bool, Option, String, arith, if◌then◌else◌, none, refl, some, true, ℕ, ◌+◌, ◌-◌, ◌<◌, ◌∙◌, ◌≡◌,
}
use auto_heal.Value.{Fields}
use auto_heal.Cooldown.{Tracker, record_run}
use auto_heal.Executor.Result.{ActionExecutionResult, Ended, returned}
use auto_heal.Service.State.{
  Env, Payload, Response, State, audit_entry, cooldown_block, cooldown_block_audit_entry,
  internal_error, write_audit_log,
}
use auto_heal.Service.Cool.{
  cooldown_key_for, cooldown_left, cooldown_ms, cools, execute, notify, start_cooldown,
}
use auto_heal.Service.Webhook.{finish_run, run_now}

-- The answer of a request that is blocked, or the 500 where the block's entry cannot be written
abbrev pub block_or_error :
    Env → String → Option String → Payload → String → Fields → State → ℕ → Response
block_or_error env api_key role p controller_name params s remaining =
    if env.audit_ok (
      audit_entry env s.now
        (cooldown_block_audit_entry p.event_type controller_name params api_key role p.dry_run))
    then cooldown_block p.event_type controller_name remaining
    else internal_error

module _ (env : Env) (api_key : String) (role : Option String) (p : Payload)
    (action_config : Fields) (controller_name : String) (controller_config params : Fields) where
  abbrev pub run : State → Response × State
  run = run_now env api_key role p action_config controller_name controller_config params

  abbrev pub run_key : String
  run_key = cooldown_key_for env.world action_config p.event_type controller_name params

  abbrev pub started : State → Ended × State
  started = execute env action_config controller_config params p.dry_run

  run-blocked :
      (s : State) (remaining : ℕ)
      → cooldown_left action_config p.dry_run run_key s ≡ some remaining
      → ((run s).0 ≡ block_or_error env api_key role p controller_name params s remaining)
        × ((run s).1.events ≡ s.events)
  unfolding write_audit_log run_now
  run-blocked s remaining h = rw (h, run_now) (refl, refl)

  finish_run-records :
      (e : Ended) (s : State) (r : ActionExecutionResult)
      → e ≡ returned r
      → cools action_config p.dry_run ≡ true
      → (finish_run env api_key role p action_config controller_name controller_config params
          (e, s)).1.tracker
        ≡ record_run run_key s.now env.disk_ok s.tracker
  unfolding write_audit_log notify start_cooldown finish_run record_run
  finish_run-records e s r h c = rw (h, finish_run) (rw (c, start_cooldown) refl)

  run-records :
      (s : State) (r : ActionExecutionResult)
      → cools action_config p.dry_run ≡ true
      → cooldown_left action_config p.dry_run run_key s ≡ none
      → (started s).0 ≡ returned r
      → (run s).1.tracker ≡ record_run run_key (s.now + env.elapsed) env.disk_ok s.tracker
  unfolding run_now execute
  run-records s r c free h =
      rw (free, run_now) (finish_run-records (started s).0 (started s).1 r h c)

cooldown_left-record_run :
    (action_config : Fields) (dry_run : Option Bool) (cd_key : String) (start : ℕ) (written : Bool)
    (tracker : Tracker) (t : State)
    → IsProper tracker
    → cools action_config dry_run ≡ true
    → t.tracker ≡ record_run cd_key start written tracker
    → t.now < start + cooldown_ms action_config
    → cooldown_left action_config dry_run cd_key t
      ≡ some (start + cooldown_ms action_config - t.now)
unfolding cooldown_left
cooldown_left-record_run action_config dry_run cd_key start written tracker t proper c e early =
    rw (c, cooldown_left)
      (rw e (
        seconds_remaining-record_run_self cd_key start t.now (cooldown_ms action_config) written
          tracker proper
        ∙ ground arith))

-- A run that came to its end, successful or not, of an action with a cooldown blocks every real run
-- with the same cooldown key until the cooldown is over, by whatever caller and with whatever
-- parameters: the answer is the block with the time that is left, or the 500 of an audit entry that
-- cannot be written, and nothing outside is touched.
-- The tracker's keys are distinct, and it is as the first run left it, whatever else has changed in
-- between.
pub run_now-blocks :
    (env later : Env) (api_key other_key : String) (role other_role : Option String) (p q : Payload)
    (action_config : Fields) (controller_name : String)
    (controller_config params other_params : Fields) (s t : State) (r : ActionExecutionResult)
    → IsProper s.tracker
    → cools action_config p.dry_run ≡ true
    → cools action_config q.dry_run ≡ true
    → cooldown_key_for later.world action_config q.event_type controller_name other_params
      ≡ cooldown_key_for env.world action_config p.event_type controller_name params
    → cooldown_left action_config p.dry_run
        (cooldown_key_for env.world action_config p.event_type controller_name params)
        s
      ≡ none
    → (execute env action_config controller_config params p.dry_run s).0 ≡ returned r
    → t.tracker
      ≡ (run_now env api_key role p action_config controller_name controller_config params
          s).1.tracker
    → t.now < s.now + env.elapsed + cooldown_ms action_config
    → ((run_now later other_key other_role q action_config controller_name controller_config
          other_params t).0
        ≡ block_or_error later other_key other_role q controller_name other_params t
            (s.now + env.elapsed + cooldown_ms action_config - t.now))
      × ((run_now later other_key other_role q action_config controller_name controller_config
            other_params t).1.events
          ≡ t.events)
run_now-blocks env later api_key other_key role other_role p q action_config controller_name
      controller_config params other_params s t r proper first second same_key free ended
      same_tracker early =
    let done =
      run-records env api_key role p action_config controller_name controller_config params s r
        first free ended in
    run-blocked later other_key other_role q action_config controller_name controller_config
      other_params t (s.now + env.elapsed + cooldown_ms action_config - t.now)
      (rw same_key (
        cooldown_left-record_run action_config q.dry_run
          (cooldown_key_for env.world action_config p.event_type controller_name params)
          (s.now + env.elapsed) env.disk_ok s.tracker t proper second (same_tracker ∙ done) early))
