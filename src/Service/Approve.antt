-- ===== src/Service/Approve.antt =====
-- `approve_approval`, `reject_approval` and `list_approvals` of src/main.py. Approving has two
-- critical sections, with the execution between them.
pub mod FourEyes
pub mod Once
use auto_heal.Prelude.{
  Bool, Option, String, false, if◌then◌else◌, none, not, some, true, ◌&&◌, ◌<>◌, ◌==◌,
}
use auto_heal.Value.{Fields, Value, end, field, get_or, null, obj, str, text_at, text_or_null}
use auto_heal.Auth.{
  get_key_scope, get_role_from_api_key, has_permission, is_action_allowed_for_key,
  is_controller_allowed_for_key,
}
use auto_heal.Approvals.Prune.{Approval, Status, approved, is_pending, pending, rejected}
use auto_heal.Approvals.{find, write}
use auto_heal.Approvals
use auto_heal.Executor.Result.{ActionExecutionResult, Ended, as_dict, nothing, raised, returned}
use auto_heal.Service.State.{
  Env, Payload, Response, State, answer, audit_head, bool_or_null, config_at, cooldown_block,
  cooldown_block_audit_entry, internal_error, merged_params, name_text, or_text, refuse, reply,
  write_audit_log,
}
use auto_heal.Service.Cool.{cooldown_key_for, cooldown_left, execute, notify, start_cooldown}
use auto_heal.Service.Webhook.{no_executable_error}

abbrev pub status_text : Status → String
status_text pending = "pending"
status_text approved = "approved"
status_text rejected = "rejected"

-- `entry[...] = ...` and `_save_approval_queue_locked`
unfoldable pub write_entry : Env → String → (Approval → Approval) → State → State
write_entry env id f s = record s { queue = Approvals.write env.disk_ok id f s.queue }

-- What approving needs once the entry is claimed. `controller_config` is none where the
-- controller is no longer configured.
pub record Claim : Type 0 where
  pub entry : Approval
  pub request : Payload
  pub action_config : Fields
  pub controller_name : String
  pub controller_config : Option Fields
  pub params : Fields
  pub cd_key : String

-- Answered within the first critical section, or claimed.
pub data Decision : Type 0 where
  answered : Response → Decision
  claimed : Claim → Decision

-- `controller_name in allowed`, where the name may be None
abbrev allows_controller : Env → String → Option String → Bool
allows_controller env key none = elim (get_key_scope env.source key).allowed_controllers [
  | none ↦ true
  | some names ↦ false
]
allows_controller env key (some name) = is_controller_allowed_for_key env.source key name

-- The check that the requester may still do what it asked for
abbrev pub requester_may : Env → Approval → Payload → Option String → Bool
requester_may env entry p controller_name =
    has_permission env.source entry.role "execute_actions"
    && is_action_allowed_for_key env.source entry.requested_by p.event_type
    && allows_controller env entry.requested_by controller_name

abbrev pub no_longer_permitted : String
no_longer_permitted = "Requester is no longer permitted to execute this action/controller"

abbrev pub error_result : String → Value
error_result e = obj (field "error" (str e) end)

abbrev pub set_rejected : String → Approval → Approval
set_rejected reason e = record e { status = rejected; result = error_result reason }

abbrev pub set_approved : String → Option String → Approval → Approval
set_approved api_key approver_role e = record e {
  status = approved;
  approved_by = some api_key;
  approver_role = approver_role;
}

-- The claim, unless the action is in its cooldown
unfoldable pub claim_unless_cooling :
    Env → String → Option String → Claim → State → Decision × State
claim_unless_cooling env api_key approver_role c s =
    elim (cooldown_left c.action_config c.request.dry_run c.cd_key s) [
      | some remaining ↦
          let (r, s') = answer (cooldown_block c.request.event_type c.controller_name remaining) (
            write_audit_log env
              (cooldown_block_audit_entry c.request.event_type c.controller_name c.params api_key
                approver_role c.request.dry_run)
              s) in
          (answered r, s')
      | none ↦ (claimed c, write_entry env c.entry.id (set_approved api_key approver_role) s)
    ]

abbrev pub controller_at : Env → Option String → Option Fields
controller_at env none = none
controller_at env (some name) = config_at name env.controllers

abbrev pub claim_of : Env → Approval → Payload → Fields → Option String → Claim
claim_of env entry p action_config controller_name =
    let params = merged_params action_config p in
    record {
      entry = entry;
      request = p;
      action_config = action_config;
      controller_name = name_text controller_name;
      controller_config = controller_at env controller_name;
      params = params;
      cd_key =
          cooldown_key_for env.world action_config p.event_type (name_text controller_name) params;
    }

unfoldable pub recheck :
    Env
    → String
    → Option String
    → Approval
    → Payload
    → Option Fields
    → Option String
    → State
    → Decision × State
recheck env api_key approver_role entry p action_config controller_name s =
    if not (requester_may env entry p controller_name)
    then (
      answered (refuse 403 no_longer_permitted),
      write_entry env entry.id (set_rejected no_longer_permitted) s,
    )
    else elim action_config [
      | none ↦ (answered internal_error, s)
      | some config ↦
          claim_unless_cooling env api_key approver_role
            (claim_of env entry p config controller_name) s
    ]

-- `payload.controller_override or action_config.get("default_controller")`. Without an override an
-- action that is no longer configured raises here.
unfoldable pub revalidate :
    Env → String → Option String → Approval → Payload → State → Decision × State
revalidate env api_key approver_role entry p s =
    let action_config = config_at p.event_type env.actions in
    elim action_config [
      | none ↦ elim (or_text p.controller_override none) [
        | none ↦ (answered internal_error, s)
        | some name ↦ recheck env api_key approver_role entry p none (some name) s
      ]
      | some config ↦
          recheck env api_key approver_role entry p (some config)
            (or_text p.controller_override (text_at "default_controller" config)) s
    ]

-- The guards that approving and rejecting share, up to the verb in the last text: the entry if it
-- is pending and somebody else's.
pub data Guarded : Type 0 where
  barred : Response → Guarded
  open_entry : Approval → Guarded

unfoldable pub guard_entry : String → String → String → State → Guarded
guard_entry own api_key approval_id s = elim (find approval_id s.queue.entries) [
  | none ↦ barred (refuse 404 "Approval not found")
  | some entry ↦
      if not (is_pending entry)
      then barred (refuse 400 ("Already " <> status_text entry.status))
      else if entry.requested_by == api_key
      then barred (refuse 403 own)
      else open_entry entry
]

-- What follows the guards within the first critical section
abbrev pub after_guard : Env → String → Option String → Guarded → State → Decision × State
after_guard env api_key approver_role (barred r) s = (answered r, s)
after_guard env api_key approver_role (open_entry entry) s = elim (env.validate entry.payload) [
  | none ↦ (answered internal_error, s)
  | some p ↦ revalidate env api_key approver_role entry p s
]

-- The first critical section of `approve_approval`
unfoldable pub claim_entry : Env → String → String → State → Decision × State
claim_entry env api_key approval_id s =
    let approver_role = get_role_from_api_key env.source api_key in
    if not (has_permission env.source approver_role "approve_actions")
    then (answered (refuse 403 "Approving actions is not permitted for your role"), s)
    else after_guard env api_key approver_role
        (guard_entry "You cannot approve your own request" api_key approval_id s) s

abbrev approval_fields : String → String → String → Option String → Option Bool → Fields
approval_fields approval_id approval_status api_key approver_role dry_run =
    field "dry_run" (bool_or_null dry_run) (
      field "approval_id" (str approval_id) (
        field "approval_status" (str approval_status) (
          field "approved_by" (str api_key)
            (field "approver_role" (text_or_null approver_role) end))))

-- The audit entry of an approved run
abbrev pub approval_entry :
    String → String → Option String → Claim → Fields → ActionExecutionResult → Fields
approval_entry api_key approval_id approver_role c controller_config r =
    audit_head c.entry.requested_by c.entry.role (str c.request.event_type) (str c.controller_name)
      (get_or "type" null controller_config) (obj c.params) (as_dict r) null
      (approval_fields approval_id "approved" api_key approver_role c.request.dry_run)

abbrev pub set_result : Value → Approval → Approval
set_result result e = record e { result = result }

-- The second critical section, the audit entry and the notification
unfoldable pub settle : Env → String → String → Claim → Fields → Ended × State → Response × State
settle env api_key approval_id c controller_config (nothing, s) = (
  refuse 400 no_executable_error,
  write_entry env c.entry.id (set_rejected no_executable_error) s,
)
settle env api_key approval_id c controller_config (raised e, s) = (internal_error, s)
settle env api_key approval_id c controller_config (returned r, s) =
    let approver_role = get_role_from_api_key env.source api_key in
    let s1 = start_cooldown env c.action_config c.request.dry_run c.cd_key s in
    let s2 = write_entry env c.entry.id (set_result (obj (as_dict r))) s1 in
    let entry = approval_entry api_key approval_id approver_role c controller_config r in
    answer (reply 200 (field "status" (str "approved") (field "result" (obj (as_dict r)) end))) (
      notify env c.request.event_type c.controller_name c.entry.requested_by r c.action_config
        (write_audit_log env entry s2))

-- What a claimed entry leads to, outside the lock. Without its controller the code raises.
unfoldable pub run_claim : Env → String → String → Claim → State → Response × State
run_claim env api_key approval_id c s = elim c.controller_config [
  | none ↦ (internal_error, s)
  | some controller_config ↦
      settle env api_key approval_id c controller_config
        (execute env c.action_config controller_config c.params c.request.dry_run s)
]

abbrev pub after_claim : Env → String → String → Decision × State → Response × State
after_claim env api_key approval_id (answered r, s) = (r, s)
after_claim env api_key approval_id (claimed c, s) = run_claim env api_key approval_id c s

-- `approve_approval`
unfoldable pub approve_approval : Env → String → String → State → Response × State
approve_approval env api_key approval_id s =
    after_claim env api_key approval_id (claim_entry env api_key approval_id s)
