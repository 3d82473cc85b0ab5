-- ===== src/Service/Accounts.antt =====
-- What a request leaves in the audit log and the notifications, set against what it did outside.
pub mod Entries
pub mod Asked
pub mod Decided
pub mod Approved
pub mod Tests
use auto_heal.Prelude.{
  Bool, Bool-cases, Option, String, [], ap, false, inl, inr, none, refl, some, sym, ◌++◌, ◌∙◌, ◌∷◌,
  ◌≡◌, ◌⊎◌,
}
use auto_heal.Value.{Fields, end, get, obj, str}
use auto_heal.Executor.Result.{ActionExecutionResult, as_dict, returned}
use auto_heal.Executor.Dispatch.{execute_action}
use auto_heal.Executor.Dispatch.Acts.{acts}
use auto_heal.Service.State.{
  Env, Response, State, blocked_execution, config_at, cooldown_block, internal_error,
  rate_limit_block, reply, status_code,
}
use auto_heal.Service.Cool.{cools, notice_of, start_cooldown}

abbrev pub content : Response → Fields
content (reply code fields) = fields
content (cooldown_block event_type controller_name remaining) = end
content (rate_limit_block retry_after) = end

-- The run of an action that is on record: the executor went from the events before to those after
-- with the configurations of an action and of a controller, one audit entry has its result, with these two names and the parameters, under the
-- user's name, and `notify` was called with the same.
pub record OnRecord (env : Env) (user : String) (s : State) (o : Response × State) : Type 0 where
  pub action_config : Fields
  pub controller_config : Fields
  pub params : Fields
  pub dry_run : Bool
  pub result : ActionExecutionResult
  pub executed :
      execute_action env.world action_config controller_config params dry_run s.events
      ≡ (returned result, o.1.events)
  pub entry : Fields
  pub audited : o.1.audit ≡ s.audit ++ entry ∷ []
  pub entry_user : get "user" entry ≡ some (str user)
  pub entry_unchained : get "entry_hash" entry ≡ none
  pub entry_result : get "execution" entry ≡ some (obj (as_dict result))
  pub action : String
  pub controller_name : String
  pub configured : config_at action env.actions ≡ some action_config
  pub known : config_at controller_name env.controllers ≡ some controller_config
  pub entry_action : get "action" entry ≡ some (str action)
  pub entry_controller : get "controller" entry ≡ some (str controller_name)
  pub entry_parameters : get "parameters" entry ≡ some (obj params)
  pub notified :
      o.1.notices ≡ s.notices ++ notice_of action controller_name user result action_config ∷ []

-- What a request by `caller` leaves: nothing was done, nothing noted and no result told; it was
-- blocked, which is noted under the caller's name; an action ran, which is on record under the
-- user's name, and its result was told; or the answer is the 500 of an exception, since `notify`
-- raised after the run was noted, or since `audit_chain.append` did not write an entry.
pub data Accounted (env : Env) (key caller user : String) (s : State) (o : Response × State)
    : Type 0 where
  idle :
      acts o.1.events ≡ acts s.events
      → o.1.audit ≡ s.audit
      → o.1.notices ≡ s.notices
      → get key (content o.0) ≡ none
      → Accounted env key caller user s o
  blocked :
      (entry : Fields) (reason : String)
      → (status_code o.0 ≡ 409) ⊎ (status_code o.0 ≡ 429)
      → o.1.events ≡ s.events
      → o.1.audit ≡ s.audit ++ entry ∷ []
      → get "user" entry ≡ some (str caller)
      → get "execution" entry ≡ some (obj (blocked_execution reason))
      → o.1.notices ≡ s.notices
      → get key (content o.0) ≡ none
      → Accounted env key caller user s o
  on_record :
      (h : OnRecord env user s o)
      → status_code o.0 ≡ 200
      → get key (content o.0) ≡ some (obj (as_dict h.result))
      → Accounted env key caller user s o
  unnotified :
      (h : OnRecord env user s o)
      → env.notify_ok (notice_of h.action h.controller_name user h.result h.action_config) ≡ false
      → o.0 ≡ internal_error
      → Accounted env key caller user s o
  unaudited :
      (entry : Fields)
      → env.audit_ok entry ≡ false
      → o.0 ≡ internal_error
      → o.1.audit ≡ s.audit
      → o.1.notices ≡ s.notices
      → Accounted env key caller user s o

pub events-start_cooldown :
    (env : Env) (config : Fields) (dry_run : Option Bool) (key : String) (s : State)
    → ((start_cooldown env config dry_run key s).events ≡ s.events)
      × ((start_cooldown env config dry_run key s).audit ≡ s.audit)
      × ((start_cooldown env config dry_run key s).notices ≡ s.notices)
unfolding start_cooldown
events-start_cooldown env config dry_run key s = elim (Bool-cases (cools config dry_run)) [
  | inl cooling ↦ rw (cooling, start_cooldown) (refl, refl, refl)
  | inr free ↦ rw (free, start_cooldown) (refl, refl, refl)
]

-- Only the events, the audit log and the notices count of the state before.
abbrev OnRecord_from :
    (env : Env) (user : String) (t s : State) (o : Response × State)
    → t.events ≡ s.events
    → t.audit ≡ s.audit
    → t.notices ≡ s.notices
    → OnRecord env user t o
    → OnRecord env user s o
OnRecord_from env user t s o e a n h =
    let notice = notice_of h.action h.controller_name user h.result h.action_config in
    record {
      action_config = h.action_config;
      controller_config = h.controller_config;
      params = h.params;
      dry_run = h.dry_run;
      result = h.result;
      executed =
          ap (execute_action env.world h.action_config h.controller_config h.params h.dry_run)
            (sym e)
          ∙ h.executed;
      entry = h.entry;
      audited = h.audited ∙ ap (λ x. x ++ h.entry ∷ []) a;
      entry_user = h.entry_user;
      entry_unchained = h.entry_unchained;
      entry_result = h.entry_result;
      action = h.action;
      controller_name = h.controller_name;
      configured = h.configured;
      known = h.known;
      entry_action = h.entry_action;
      entry_controller = h.entry_controller;
      entry_parameters = h.entry_parameters;
      notified = h.notified ∙ ap (λ x. x ++ notice ∷ []) n;
    }

-- The same of the whole account
pub Accounted_from :
    (env : Env) (key caller user : String) (t s : State) (o : Response × State)
    → t.events ≡ s.events
    → t.audit ≡ s.audit
    → t.notices ≡ s.notices
    → Accounted env key caller user t o
    → Accounted env key caller user s o
Accounted_from env key caller user t s o e a n (idle quiet same_audit same_notices untold) =
    idle (quiet ∙ ap acts e) (same_audit ∙ a) (same_notices ∙ n) untold
Accounted_from env key caller user t s o e a n
      (blocked entry reason code same_events audited by_user why same_notices untold) =
    blocked entry reason code (same_events ∙ e) (audited ∙ ap (λ x. x ++ entry ∷ []) a) by_user why
      (same_notices ∙ n) untold
Accounted_from env key caller user t s o e a n (on_record h accepted told) =
    on_record (OnRecord_from env user t s o e a n h) accepted told
Accounted_from env key caller user t s o e a n (unnotified h broken is_error) =
    unnotified (OnRecord_from env user t s o e a n h) broken is_error
Accounted_from env key caller user t s o e a n
      (unaudited entry broken is_error same_audit same_notices) =
    unaudited entry broken is_error (same_audit ∙ a) (same_notices ∙ n)
