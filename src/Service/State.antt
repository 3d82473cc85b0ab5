-- ===== src/Service/State.antt =====
-- What src/main.py keeps between requests, what a request reads, and the audit entries.
use auto_heal.Prelude.{
  Bool, List, Option, String, [], false, if◌then◌else◌, none, pos, some, ℕ, ◌++◌, ◌==◌, ◌∷◌,
}
use auto_heal.Value.{
  Fields, Value, bool, dict_at, end, field, get, get_or, null, num, obj, put, str, text_or_null,
  update,
}
use auto_heal.RateLimit.Deque.{Hits}
use auto_heal.Cooldown.{Tracker}
use auto_heal.Auth.{Source}
use auto_heal.Approvals.{Queue}
use auto_heal.Executor.Outside.{Event, World}

-- The arguments of one call of `notification_sender.notify`.
pub record Notice : Type 0 where
  pub action : String
  pub controller : String
  pub user : String
  pub status : String
  pub details : Value
  pub severity : Option String

-- `audit` holds the entries that `audit_chain.append` wrote, in order, `notices` the calls of
-- `notify`, whether they raise or not, `events` what was asked of
-- the outside, and `now` the time in milliseconds.
pub record State : Type 0 where
  pub now : ℕ
  pub hits : Hits
  pub tracker : Tracker
  pub queue : Queue
  pub audit : List Fields
  pub notices : List Notice
  pub events : List Event

-- `WebhookPayload`; `parameters`, `dry_run` and `approval_required` may be null.
pub record Payload : Type 0 where
  pub event_type : String
  pub controller_override : Option String
  pub parameters : Option Fields
  pub dry_run : Option Bool
  pub approval_required : Option Bool

-- What a request finds: the configurations, pydantic's validation of a payload, the outside, the
-- next uuid, whether the state files can be written, whether `audit_chain.append` returns for an
-- entry and `notify` for its arguments (each may raise), how long the executor takes, the time as
-- an ISO text and the caller's address. They stay as they are while a request runs.
pub record Env : Type 0 where
  pub source : Source
  pub actions : Fields
  pub controllers : Fields
  pub limits : Fields
  pub validate : Fields → Option Payload
  pub world : World
  pub new_id : String
  pub disk_ok : Bool
  pub audit_ok : Fields → Bool
  pub notify_ok : Notice → Bool
  pub elapsed : ℕ
  pub stamp : ℕ → String
  pub client_ip : Option String

-- A status code with its content, the answer of `cooldown_block_response` and the one of
-- `rate_limit_block_response`, with the milliseconds left.
pub data Response : Type 0 where
  reply : ℕ → Fields → Response
  cooldown_block : String → String → ℕ → Response
  rate_limit_block : ℕ → Response

abbrev pub status_code : Response → ℕ
status_code (reply code content) = code
status_code (cooldown_block event_type controller_name remaining) = 409
status_code (rate_limit_block retry_after) = 429

-- `JSONResponse(status_code=..., content={"detail": ...})`
abbrev pub refuse : ℕ → String → Response
refuse code detail = reply code (field "detail" (str detail) end)

-- `ErrorResponse(...).model_dump()`, with its status code
abbrev pub error_response : ℕ → String → Value → Response
error_response code detail errors =
    reply code
      (field "detail" (str detail) (field "code" (num (pos code)) (field "errors" errors end)))

-- `unhandled_exception_handler`
abbrev pub internal_error : Response
internal_error = error_response 500 "Internal server error" null

abbrev pub is_on : Option Bool → Bool
is_on none = false
is_on (some b) = b

abbrev pub bool_or_null : Option Bool → Value
bool_or_null none = null
bool_or_null (some b) = bool b

abbrev pub dict_or_null : Option Fields → Value
dict_or_null none = null
dict_or_null (some f) = obj f

-- `payload.parameters or {}`
abbrev pub dict_or_empty : Option Fields → Fields
dict_or_empty none = end
dict_or_empty (some f) = f

-- `get_action_config`, `get_controller_config`: the dict at the name
unfoldable pub config_at : String → Fields → Option Fields
config_at name configs = elim (get name configs) [ some (obj f) ↦ some f | _ ↦ none ]

-- `a or b` on texts that may be None
abbrev pub or_text : Option String → Option String → Option String
or_text none b = b
or_text (some a) b = if a == "" then b else some a

-- `str(name)`
abbrev pub name_text : Option String → String
name_text none = "None"
name_text (some name) = name

-- `action_config.get("parameters", {}).copy()`, updated by `payload.parameters or {}`
unfoldable pub merged_params : Fields → Payload → Fields
merged_params action_config p =
    update (dict_at "parameters" action_config) (dict_or_empty p.parameters)

-- The dict at `execution`, with what `write_audit_log` derives from it
abbrev pub audit_entry : Env → ℕ → Fields → Fields
audit_entry env now entry =
    let execution = dict_at "execution" entry in
    put "error" (get_or "error" null execution) (
      put "status" (get_or "success" null execution) (
        put "execution" (obj execution) (
          put "client_ip" (get_or "client_ip" null entry)
            (put "timestamp" (str (env.stamp now)) entry))))

-- `write_audit_log`, up to the call of `audit_chain.append`, and whether that returned
unfoldable pub write_audit_log : Env → Fields → State → Bool × State
write_audit_log env entry s =
    let e = audit_entry env s.now entry in
    let went = env.audit_ok e in
    (went, record s { audit = if went then s.audit ++ e ∷ [] else s.audit })

-- The answer of a handler after calls that may have raised
abbrev pub answer : Response → Bool × State → Response × State
answer r o = (if o.0 then r else internal_error, o.1)

-- The fields that every audit entry of a handler begins with
abbrev pub audit_head :
    String → Option String → Value → Value → Value → Value → Fields → Value → Fields → Fields
audit_head user role action controller controller_type parameters execution client_ip rest =
    field "user" (str user) (
      field "role" (text_or_null role) (
        field "action" action (
          field "controller" controller (
            field "controller_type" controller_type (
              field "parameters" parameters
                (field "execution" (obj execution) (field "client_ip" client_ip rest)))))))

abbrev pub blocked_execution : String → Fields
blocked_execution e = field "success" (bool false) (field "error" (str e) end)

-- `rate_limit_block_audit_entry`
abbrev pub rate_limit_block_audit_entry : String → String → Option String → Option Fields → Fields
rate_limit_block_audit_entry event_type api_key role params =
    audit_head api_key role (str event_type) null null (dict_or_null params)
      (blocked_execution "blocked-by-rate-limit") null
      (field "dry_run" null (field "blocked_reason" (str "rate_limit") end))

-- `cooldown_block_audit_entry`
abbrev pub cooldown_block_audit_entry :
    String → String → Fields → String → Option String → Option Bool → Fields
cooldown_block_audit_entry event_type controller_name params api_key role dry_run =
    audit_head api_key role (str event_type) (str controller_name) null (obj params)
      (blocked_execution "blocked-by-cooldown") null
      (field "dry_run" (bool_or_null dry_run) (field "blocked_reason" (str "cooldown") end))
