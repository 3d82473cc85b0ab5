-- ===== src/Service/Query/Tests.antt =====
-- Queries of a small log.
use auto_heal.Prelude.{
  List, String, String-discrete, [], none, pos, pos_part, refl, select, some, take, true, ℕ, ◌∷◌,
  ◌≡◌,
}
use auto_heal.Value.{end, field, get, str}
use auto_heal.Auth.{
  get_key_scope, get_role_from_api_key, has_permission, normalize_key_entry, resolve_api_keys,
}
use auto_heal.Audit.{Line, blank, entry, not_json}
use auto_heal.Service.Tests.{env}
use auto_heal.Service.Query.{Query, collect, filter_audit_entry, get_audit, is_wanted, text_ltb}
use auto_heal.Service.Query.Laws.{at_least_one, get_audit-eq-newest}

line_of : String → String → Line
line_of action timestamp =
    entry (field "action" (str action) (field "timestamp" (str timestamp) end))

abbrev small_log : List Line
small_log =
    line_of "restart" "2026-01-03T00:00:00Z"
    ∷ not_json
    ∷ line_of "health_check" "2026-01-02T00:00:00Z"
    ∷ line_of "restart" "2026-01-01T00:00:00Z"
    ∷ blank
    ∷ []

restarts : ℕ → Query
restarts n = record {
  start = some "2026-01-01";
  end_at = some "2026-01-02T12:00:00Z";
  action = some "restart";
  user = none;
  role = none;
  controller = none;
  limit = pos n;
}

may_read :
    has_permission env.source (get_role_from_api_key env.source "admin-key") "audit_read" ≡ true
unfolding has_permission get_role_from_api_key get_key_scope resolve_api_keys normalize_key_entry
    get String-discrete
may_read = refl

-- A limit of nothing returns one entry.
limit_of_nothing :
    collect 0 (restarts 0) 0 small_log ≡ line_of "restart" "2026-01-01T00:00:00Z" ∷ []
unfolding collect filter_audit_entry restarts line_of get String-discrete text_ltb
limit_of_nothing = refl

get_audit-eq-newest_example :
    get_audit env "admin-key" (restarts 2) (some small_log)
    ≡ some (
        take
          (at_least_one (pos_part (restarts 2).limit) 0)
          (select (is_wanted (restarts 2)) small_log))
get_audit-eq-newest_example = get_audit-eq-newest env "admin-key" (restarts 2) small_log may_read
