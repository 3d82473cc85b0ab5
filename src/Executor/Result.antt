-- ===== src/Executor/Result.antt =====
-- `ActionExecutionResult` of src/executor.py, and how a call of the executor ends.
use auto_heal.Prelude.{Bool, Option, String, false, is_nonzero, none, not, pos, some, true, ℤ}
use auto_heal.Value.{Fields, bool, end, field, num, str, text_or_null}
use auto_heal.Executor.Outside.{Completed, completed, failed, timed_out}

pub record ActionExecutionResult : Type 0 where
  pub success : Bool
  pub stdout : String
  pub stderr : String
  pub exit_code : ℤ
  pub error : Option String

-- `as_dict`
unfoldable pub as_dict : ActionExecutionResult → Fields
as_dict r = field "success" (bool r.success) (
    field "stdout" (str r.stdout) (
      field "stderr" (str r.stderr)
        (field "exit_code" (num r.exit_code) (field "error" (text_or_null r.error) end))))

-- `ActionExecutionResult(False, "", "", 1, error=...)`
abbrev pub failure : String → ActionExecutionResult
failure e = record { success = false; stdout = ""; stderr = ""; exit_code = pos 1; error = some e }

-- `ActionExecutionResult(success=True, stdout=msg, stderr="", exit_code=0, error=None)`
abbrev pub simulated : String → ActionExecutionResult
simulated msg = record {
  success = true;
  stdout = msg;
  stderr = "";
  exit_code = pos 0;
  error = none;
}

-- A call returns a result, returns None, or raises.
pub data Ended : Type 0 where
  returned : ActionExecutionResult → Ended
  nothing : Ended
  raised : String → Ended

abbrev pub is_zero : ℤ → Bool
is_zero z = not (is_nonzero z)

-- the result of a local `subprocess.run`, with the `except Exception` around it
unfoldable pub local_result : Completed → ActionExecutionResult
local_result (completed code out err) = record {
  success = is_zero code;
  stdout = out;
  stderr = err;
  exit_code = code;
  error = none;
}
local_result (timed_out e) = failure e
local_result (failed e) = failure e
