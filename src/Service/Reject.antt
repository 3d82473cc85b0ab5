-- ===== src/Service/Reject.antt =====
-- `reject_approval` and `list_approvals` of src/main.py.
use auto_heal.Prelude.{List, Option, String, false, if◌then◌else◌, map, none, not, some}
use auto_heal.Value.{Fields, bool, end, field, get_or, null, obj, str, text_or_null}
use auto_heal.Auth.{get_role_from_api_key, has_permission}
use auto_heal.Approvals.Prune.{Approval, rejected}
use auto_heal.Service.State.{
  Env, Response, State, answer, audit_head, blocked_execution, refuse, reply, write_audit_log,
}
use auto_heal.Service.Approve.{
  barred, error_result, guard_entry, open_entry, status_text, write_entry,
}

abbrev pub set_rejected_by : String → Option String → Approval → Approval
set_rejected_by api_key approver_role e = record e {
  status = rejected;
  result = error_result "Rejected by approver";
  approved_by = some api_key;
  approver_role = approver_role;
}

abbrev pub rejection_entry : Approval → String → String → Option String → Fields
rejection_entry e approval_id api_key approver_role =
    audit_head e.requested_by e.role (get_or "event_type" null e.payload) (str e.controller) null
      (get_or "parameters" null e.payload) (blocked_execution "Rejected by approver") null
      (field "dry_run" (get_or "dry_run" (bool false) e.payload) (
        field "approval_id" (str approval_id) (
          field "approval_status" (str "rejected") (
            field "approved_by" (str api_key)
              (field "approver_role" (text_or_null approver_role) end)))))

-- `reject_approval`
unfoldable pub reject_approval : Env → String → String → State → Response × State
reject_approval env api_key approval_id s =
    let approver_role = get_role_from_api_key env.source api_key in
    if not (has_permission env.source approver_role "approve_actions")
    then (refuse 403 "Rejecting actions is not permitted for your role", s)
    else elim (guard_entry "You cannot reject your own request" api_key approval_id s) [
      | barred r ↦ (r, s)
      | open_entry e ↦ answer (reply 200 (field "status" (str "rejected") end)) (
          write_audit_log env (rejection_entry e approval_id api_key approver_role)
            (write_entry env e.id (set_rejected_by api_key approver_role) s))
    ]

-- An entry without its `result`
abbrev pub listed : Approval → Fields
listed e = field "id" (str e.id) (
    field "payload" (obj e.payload) (
      field "status" (str (status_text e.status)) (
        field "requested_by" (str e.requested_by) (
          field "role" (text_or_null e.role) (
            field "controller" (str e.controller) (
              field "approved_by" (text_or_null e.approved_by)
                (field "approver_role" (text_or_null e.approver_role) end)))))))

-- `list_approvals`: 403, or the entries in order. The last two fields of an entry that nobody has
-- processed are nulls here; the code leaves them out.
unfoldable pub list_approvals : Env → String → State → Option (List Fields)
list_approvals env api_key s =
    if has_permission env.source (get_role_from_api_key env.source api_key) "approvals_read"
    then some (map listed s.queue.entries)
    else none
