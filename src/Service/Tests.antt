-- ===== src/Service/Tests.antt =====
-- The handlers at concrete requests, over config/auth.yaml and the script actions.

use auto_heal.Prelude.{
  String, String-discrete, [], arith, false, none, pos, refl, some, true, ◌∷◌, ◌≡◌,
}
use auto_heal.Dict.{lookup, update}
use auto_heal.Value.{Value, end, field, get, null, num, obj, str}
use auto_heal.Cooldown.{StateFile, holds, load, make_key, missing, seconds_remaining}
use auto_heal.Value
use auto_heal.Cooldown
use auto_heal.Auth.{
  get_key_scope, get_role_from_api_key, has_permission, is_action_allowed_for_key,
  is_controller_allowed_for_key, normalize_key_entry, resolve_api_keys,
}
use auto_heal.Auth.Tests.{shipped}
use auto_heal.Approvals.Prune.{Approval, pending}
use auto_heal.Approvals.{QueueFile, find, write}
use auto_heal.Approvals
use auto_heal.Executor.Tests.{calm}
use auto_heal.Service.State.{Env, Payload, State, config_at, cooldown_block, merged_params}
use auto_heal.Service.Cool.{cooldown_key_for, cooldown_left, execute}
use auto_heal.Service.Webhook.{json, run_now, webhook}
use auto_heal.Service.Webhook.Flapping.{run_now-blocks}
use auto_heal.Executor.Result.{ActionExecutionResult, local_result, returned}
use auto_heal.Executor.Dispatch.{execute_action, is_local_controller}
use auto_heal.Executor.Local.{run_local, run_script}
use auto_heal.Service.Webhook.Gates.{RunsOnlyCleared, webhook-RunsOnlyCleared}
use auto_heal.Service.Approve.{
  Claim, Decision, approve_approval, claim_entry, claim_unless_cooling, claimed, guard_entry,
  recheck, revalidate, write_entry,
}
use auto_heal.Service.Approve.FourEyes.{RunsOnlyApprovable, approve_approval-RunsOnlyApprovable}

abbrev pub health : Payload
health = record {
  event_type = "health_check";
  controller_override = none;
  parameters = none;
  dry_run = some false;
  approval_required = some false;
}

abbrev pub env : Env
env = record {
  source = shipped;
  actions =
      field "health_check"
        (obj (
          field "script" (str "scripts/health_check.sh") (
            field "default_controller" (str "local")
              (field "cooldown_seconds" (num (pos 300)) end))))
        end;
  controllers = field "local" (obj (field "type" (str "local") end)) end;
  limits = end;
  validate = λ raw. some health;
  world = calm;
  new_id = "7";
  disk_ok = true;
  audit_ok = λ e. true;
  notify_ok = λ n. true;
  elapsed = 5000;
  stamp = λ now. "2026-01-01T00:00:00Z";
  client_ip = none;
}

abbrev pub asked : Approval
asked = record {
  id = "7";
  payload = field "event_type" (str "health_check") end;
  status = pending;
  result = null;
  requested_by = "operator-key";
  role = some "operator";
  controller = "local";
  approved_by = none;
  approver_role = none;
}

abbrev pub start : State
start = record {
  now = 1000;
  hits = [];
  tracker = record { last_run = []; state_file = Cooldown.StateFile.missing };
  queue = record { entries = asked ∷ []; state_file = Approvals.QueueFile.missing };
  audit = [];
  notices = [];
  events = [];
}

webhook-RunsOnlyCleared_example :
    RunsOnlyCleared env "operator-key" health start
      (webhook env "operator-key" (json asked.payload) start).1
webhook-RunsOnlyCleared_example =
    webhook-RunsOnlyCleared env "operator-key" asked.payload health start refl

approve_approval-RunsOnlyApprovable_example :
    RunsOnlyApprovable env "admin-key" "7" start (approve_approval env "admin-key" "7" start).1
approve_approval-RunsOnlyApprovable_example =
    approve_approval-RunsOnlyApprovable env "admin-key" "7" start

abbrev pub claim : Claim
claim = record {
  entry = asked;
  request = health;
  action_config =
      field "script" (str "scripts/health_check.sh")
        (field "default_controller" (str "local") (field "cooldown_seconds" (num (pos 300)) end));
  controller_name = "local";
  controller_config = some (field "type" (str "local") end);
  params = end;
  cd_key = "health_check|local|";
}

claims : Env → String → String → State → Decision × State
unfolding claim_entry guard_entry find revalidate recheck claim_unless_cooling cooldown_left
    config_at merged_params update cooldown_key_for make_key seconds_remaining lookup has_permission
    get_role_from_api_key get_key_scope resolve_api_keys normalize_key_entry
    is_action_allowed_for_key is_controller_allowed_for_key get String-discrete
claims = claim_entry

pub claimed_once : (claim_entry env "admin-key" "7" start).0 ≡ claimed claim
unfolding claims auto_heal.Value.update
claimed_once = refl

-- The same queue, as its file holds it
abbrev pub saved_start : State
saved_start = record start {
  queue = record { entries = asked ∷ []; state_file = Approvals.QueueFile.holds (asked ∷ []) };
}

pub claimed_saved : (claim_entry env "admin-key" "7" saved_start).0 ≡ claimed claim
unfolding claims auto_heal.Value.update
claimed_saved = refl

-- When the save of a claim fails, a new process finds the approval pending, and it is claimed and
-- executed again.
claimed_again :
    let unsaved = (claim_entry (record env { disk_ok = false }) "admin-key" "7" saved_start).1 in
    (claim_entry env "admin-key" "7"
      (record unsaved { queue = Approvals.load unsaved.queue.state_file })).0
    ≡ claimed claim
unfolding claims auto_heal.Value.update Approvals.load write_entry Approvals.write
claimed_again = refl

abbrev pub ok : ActionExecutionResult
ok = record { success = true; stdout = "ok"; stderr = ""; exit_code = pos 0; error = none }

health_runs :
    (execute env claim.action_config (field "type" (str "local") end) end (some false) start).0
    ≡ returned ok
unfolding execute execute_action get is_local_controller run_script run_local local_result
    String-discrete
health_runs = refl

abbrev after : State
after = record start {
  now = 8000;
  tracker =
      (run_now env "operator-key" (some "operator") health claim.action_config "local"
        (field "type" (str "local") end) end start).1.tracker;
}

run_now-blocks_example :
    ((run_now env "admin-key"
        (some "admin")
        health
        claim.action_config
        "local"
        (field "type" (str "local") end)
        end
        after).0
      ≡ cooldown_block "health_check" "local" 298000)
    × ((run_now env "admin-key"
          (some "admin")
          health
          claim.action_config
          "local"
          (field "type" (str "local") end)
          end
          after).1.events
        ≡ [])
unfolding cooldown_left get seconds_remaining lookup String-discrete
run_now-blocks_example =
    run_now-blocks env env "operator-key" "admin-key" (some "operator") (some "admin") health health
      claim.action_config "local" (field "type" (str "local") end) end end start after ok tt refl
      refl refl refl health_runs refl (omega arith)
