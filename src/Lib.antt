-- ===== src/Lib.antt =====
-- Auto-Healer: a service that runs healing actions when a monitoring system asks for them.
--
-- A request passes the key middleware (src/auth.py), then reaches a handler of src/main.py. The
-- webhook handler charges the caller's and the action's rate limit (src/ratelimit.py), tests the
-- key's permissions and scope, and then queues an approval, or tests the cooldown
-- (src/cooldown.py) and runs the action (src/executor.py): a local process, a command over SSH, or
-- a call of the Kubernetes API. A queued approval is approved or rejected by another key later.
--
--   Prelude    lists, strings, tests on numbers, and a ℤ over the native ℕ
--   Dict       a Python dict as an association list; Dict.Keys: distinct keys, pruning
--   Value      JSON and YAML values, and `dict.get`, `dict.update` on them
--   RateLimit  src/ratelimit.py: `limit_for_role`, `limit_for_action`, `check`. The dict of deques
--              is `Hits`; `expire` is the loop that pops from the left, `admit` is the rest.
--   Cooldown   src/cooldown.py: `Tracker` with its file; `record` is `record_run`
--   Auth       src/auth.py: `dispatch` of the middleware, `resolve_api_keys`, the permission tests
--   Approvals  the queue of src/main.py with its file; Approvals.Prune: what is kept
--   Vault      src/vault.py: Reference is `resolve_vault_ref`, Client is `VaultClient` over the list
--              of its HTTP calls. The executor takes what the client answers as a parameter.
--   Audit      src/audit.py: `_write_locked` is `write`, beside `verify_chain`. A log is the list of
--              its parsed lines, the newest first. The handlers append to a list of entries.
--              Tail is `_read_last_line` over bytes, Rotate is rotation and retention over a
--              `Store`: the log and its archives; Ship is `to_ecs` and `AuditShipper`.
--   Actions    src/actions.py and the merge of `lifespan` in src/main.py; Onboarding is
--              scripts/check_action_onboarding.py
--   ConfigFile the loaders of the YAML files in src/ratelimit.py, src/audit.py and
--              src/notifications.py, from a file's value, absence or failure
--   Notify     src/notifications.py: `__init__` in Setup, `notify` in Sender, the channels in Chat,
--              Email and Alerts, which read the parsed configuration themselves.
--              The handlers record the call of `notify` with its arguments.
--   Executor   src/executor.py, `execute_action` and `is_local_controller` of src/main.py. Shell
--              is `shlex.quote` beside a POSIX word splitter, with Literal for what else a shell reads, Format is `str.format`, Remote is
--              SSH, Kube the verbs.
--   Service    the handlers of src/main.py: Webhook, Approve, Reject (and the list), on a `State`
--              of all that they share. A handler is a function from the state to its response
--              and the next state. Lifecycle has the handlers' critical sections as the steps of a
--              relation, in any order, and in Crashes with restarts between them;
--              Approvals.Changes is the machine of one approval. Accounts sets what a request did
--              outside against what it left in the audit log and the notices; Recorded takes the
--              entries on to the log's file and the shipper. Query is /audit, /audit/verify and
--              /can-override-controller; Probes has the probes and the exception handlers.
--
-- Times are natural numbers of milliseconds (the 0.1 s of the hint is 100), and the clock is read
-- once in a method. The configuration, the disk's state and the payload's validation are an `Env`
-- that a request does not change: one Boolean says whether its writes to disk go through.
-- What is outside is a parameter: the `World` gives what a process, the Kubernetes API, Vault,
-- `mkstemp`, `json.dumps`, `str` and `int` answer, by the events so far, and every outside effect
-- is appended to a list of events. Pydantic's validation is `validate`. An identifier of
-- `uuid4` is a text; where it matters that they differ, that is a hypothesis (`NodupIds`,
-- and in Service.Lifecycle the newness of a queued id).
-- A negative `cooldown_seconds` reads as 0. A template's fields are plain names. An exception that
-- leaves a handler is the response 500.
--
-- Loops are structural recursion, but for two that run on fuel: the backward read has a round for
-- each byte and one more, and the search for an archive's name a round for each archive and one
-- more; that is enough for both.
--
-- Two calls of a handler may raise and so end it with 500: `audit_chain.append`, for the entries
-- that `audit_ok` of the `Env` refuses, and `notify`, for the arguments that its `notify_ok` refuses.
-- An append that raises is without its entry, and the file of an append that raises while it rotates
-- is not described. A number of the configuration that is no integer reads as missing, but for
-- `window_seconds`, where it raises.
--
-- Not modelled: the parsing of YAML and of JSON, the logging, and the registration of the routes,
-- which are input, output and glue of the framework.
pub mod Prelude
pub mod Dict
pub mod Value
pub mod RateLimit
pub mod Cooldown
pub mod Auth
pub mod Approvals
pub mod Vault
pub mod Audit
pub mod Actions
pub mod ConfigFile
pub mod Notify
pub mod Executor
pub mod Service
