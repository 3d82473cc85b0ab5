-- ===== src/Service/Probes.antt =====
-- The probes, `/protected` and the exception handlers of src/main.py.
use auto_heal.Prelude.{Option, String, none, some, ℕ}
use auto_heal.Value.{Value, end, field, null, str}
use auto_heal.Service.State.{Response, error_response, internal_error, reply}

-- `os.getenv("API_VERSION", "0.1.0")`
abbrev version_of : Option String → String
version_of none = "0.1.0"
version_of (some v) = v

abbrev probe : String → Option String → Response
probe state api_version =
    reply 200 (field "status" (str state) (field "version" (str (version_of api_version)) end))

-- `health`, `liveness_probe` and `readiness_probe`, with the environment's API_VERSION
unfoldable pub health : Option String → Response
health = probe "ok"

unfoldable pub liveness_probe : Option String → Response
liveness_probe = probe "live"

unfoldable pub readiness_probe : Option String → Response
readiness_probe = probe "ready"

unfoldable pub protected : Response
protected = reply 200 (field "message" (str "You have accessed a protected endpoint!") end)

-- `http_exception_handler`
unfoldable pub http_exception_handler : ℕ → String → Response
http_exception_handler code detail = error_response code detail null

-- `validation_exception_handler`
unfoldable pub validation_exception_handler : Value → Response
validation_exception_handler errors = error_response 422 "Validation error" errors

-- `unhandled_exception_handler`
unfoldable pub unhandled_exception_handler : Response
unhandled_exception_handler = internal_error
