-- ===== src/Audit/Ship.antt =====
-- `to_ecs`, `_summary_message` and `AuditShipper` of src/audit.py. The configuration is the parsed
-- config/audit.yaml; header values are texts, a host is a text and a port a number.
pub mod Laws
mod Tests
use auto_heal.Prelude.{
  Bool, List, Option, String, [], false, if◌then◌else◌, map, none, not, pos, some, ℤ, ◌&&◌, ◌++◌,
  ◌<>◌, ◌==◌, ◌∷◌,
}
use auto_heal.Value.{
  Fields, Value, arr, as_int, as_text, cons, dict_at, end, field, flag_at, get_or, nil, null, num,
  obj, str, text_at, text_or_null, truthy, update,
}
use mathlib.Core.Option
use auto_heal.Vault.Reference.{SecretAnswer, from_vault, no_secret, plain, resolve_vault_ref}
use auto_heal.Audit.{same_int}

-- What identifies a connection to syslog: host, port and protocol
abbrev pub Key : Type 0
Key = String × ℤ × String

-- What goes out: a syslog handler is made, a document is emitted on it, or sent by HTTP.
pub data Shipped : Type 0 where
  connected : Key → Value → Shipped
  emitted : Key → Fields → Shipped
  requested : Value → Value → Fields → Fields → Shipped

-- The outside: whether a syslog handler can be made; Vault; `str(v)` of a value that is no text.
-- What becomes of a request or a message is only logged.
pub record Sinks : Type 0 where
  pub connects : List Shipped → Key → Bool
  pub get_secret : String → SecretAnswer
  pub repr : Value → String

-- `_syslog_handler_key` of a shipper with a handler, and what went out
pub record Shipper : Type 0 where
  pub handler : Option Key
  pub log : List Shipped

abbrev shown : Sinks → Value → String
shown o (str s) = s
shown o v = o.repr v

-- `entry.get(k) or default`, as the text of an f-string
abbrev named : Sinks → String → String → Fields → String
named o k default e = let v = get_or k null e in if truthy v then shown o v else default

-- `entry.get("execution") or {}`
abbrev execution_of : Fields → Fields
execution_of e = dict_at "execution" e

-- `_summary_message`
unfoldable pub summary_message : Sinks → Fields → String
summary_message o e =
    let action = named o "action" "unknown-action" e in
    let controller = named o "controller" "unknown-controller" e in
    let reason = get_or "blocked_reason" null e in
    let outcome = if flag_at "success" (execution_of e) then "succeeded" else "failed" in
    let blocked =
      "action '"
      <> (action
          <> ("' on controller '" <> (controller <> ("' blocked (" <> (shown o reason <> ")"))))) in
    let ran =
      "action '" <> (action <> ("' on controller '" <> (controller <> ("' " <> outcome)))) in
    if truthy reason then blocked else ran

-- `outcome`
abbrev outcome_of : Value → String
outcome_of null = "unknown"
outcome_of v = if truthy v then "success" else "failure"

-- A field, unless its value is None
abbrev unless_null : String → Value → Fields → Fields
unless_null k null rest = rest
unless_null k v rest = field k v rest

abbrev one_item : Value → Value
one_item v = arr (cons v nil)

-- The fields of the entry under the same names
abbrev copied : List String → Fields → Fields
copied [] e = end
copied (k ∷ ks) e = field k (get_or k null e) (copied ks e)

abbrev event_of : Fields → Fields
event_of e =
    let reason = get_or "blocked_reason" null e in
    field "kind" (str "event") (
      field "category" (one_item (str "process")) (
        field "type" (one_item (str (if truthy reason then "denied" else "change"))) (
          field "action" (get_or "action" null e) (
            field "outcome" (str (outcome_of (get_or "success" null (execution_of e)))) (
              field "reason" reason (
                field "sequence" (get_or "sequence" null e)
                  (field "hash" (get_or "entry_hash" null e) end)))))))

abbrev user_of : Fields → Fields
user_of e =
    field "name" (get_or "user" null e)
      (field "roles" (if flag_at "role" e then one_item (get_or "role" null e) else arr nil) end)

abbrev source_of : Fields → Value
source_of e =
    if flag_at "client_ip" e then obj (field "ip" (get_or "client_ip" null e) end) else null

abbrev own_fields : Fields → Fields
own_fields e = field "controller" (get_or "controller" null e) (
    field "controller_type" (get_or "controller_type" null e) (
      field "parameters" (get_or "parameters" null e) (
        field "execution" (obj (execution_of e)) (
          copied
            ("dry_run" ∷ "approval_id" ∷ "approval_status" ∷ "approved_by" ∷ "approver_role"
              ∷ "prev_hash" ∷ [])
            e))))

-- `to_ecs`
unfoldable pub to_ecs : Sinks → Fields → Fields
unfolding summary_message
to_ecs o e = unless_null "@timestamp" (get_or "timestamp" null e) (
    field "event" (obj (event_of e)) (
      field "user" (obj (user_of e)) (
        unless_null "source" (source_of e) (
          field "service"
            (obj (field "name" (str "auto-healer") (field "type" (str "auto-healer") end)))
            (field "message" (str (summary_message o e))
              (field "auto_healer" (obj (own_fields e)) end))))))

abbrev text_or : String → String → Fields → String
text_or k default cfg = elim (text_at k cfg) [ none ↦ default | some s ↦ s ]

abbrev pub key_of : Fields → Key
key_of cfg = (
  text_or "host" "localhost" cfg,
  elim (as_int (get_or "port" (num (pos 514)) cfg)) [ none ↦ pos 514 | some port ↦ port ],
  text_or "protocol" "udp" cfg,
)

abbrev pub same_key : Key → Key → Bool
same_key (h, p, r) (h', p', r') = h == h' && same_int p p' && r == r'

abbrev pub has_handler : Key → Option Key → Bool
has_handler key none = false
has_handler key (some k) = same_key key k

-- `_get_syslog_handler` and the emission; what raises is caught and logged.
unfoldable pub ship_syslog : Sinks → Fields → Fields → Shipper → Shipper
unfolding to_ecs
ship_syslog o cfg e s =
    let key = key_of cfg in
    let doc = to_ecs o e in
    if has_handler key s.handler
    then record s { log = s.log ++ emitted key doc ∷ [] }
    else if not (key.2 == "udp") && not (key.2 == "tcp")
    then s
    else if o.connects s.log key
    then record {
      handler = some key;
      log = s.log ++ connected key (get_or "facility" (str "local0") cfg) ∷ emitted key doc ∷ [];
    }
    else s

-- The headers with their references resolved, `none` where Vault does not answer
unfoldable pub resolve_headers : Sinks → Fields → Option Fields
resolve_headers o end = some end
resolve_headers o (field name v f) = elim (resolve_vault_ref o.get_secret (as_text v) none) [
  | no_secret reason ↦ none
  | plain t ↦ Option.map (field name (text_or_null t)) (resolve_headers o f)
  | from_vault w ↦ Option.map (field name w) (resolve_headers o f)
]

-- `_ship_http`
unfoldable pub ship_http : Sinks → Fields → Fields → Shipper → Shipper
unfolding resolve_headers to_ecs
ship_http o cfg e s =
    let url = get_or "url" null cfg in
    if not (truthy url) then s else elim (resolve_headers o (dict_at "headers" cfg)) [
      | none ↦ s
      | some headers ↦ record s {
        log =
            s.log
            ++ requested (get_or "method" (str "POST") cfg) url (to_ecs o e)
                (update (field "Content-Type" (str "application/json") end) headers)
              ∷ [];
      }
    ]

-- `ship`
unfoldable pub ship : Sinks → Fields → Fields → Shipper → Shipper
unfolding ship_syslog ship_http
ship o config e s =
    let shipping = dict_at "shipping" config in
    let syslog_cfg = dict_at "syslog" shipping in
    let http_cfg = dict_at "http" shipping in
    let s1 = if flag_at "enabled" syslog_cfg then ship_syslog o syslog_cfg e s else s in
    if flag_at "enabled" http_cfg then ship_http o http_cfg e s1 else s1
