-- ===== src/Service/Accounts/Entries.antt =====
-- The last calls of a handler, which write an entry and call `notify`.

use auto_heal.Prelude.{
  Bool, Bool-cases, String, [], ap, inl, inr, none, refl, some, ◌++◌, ◌∷◌, ◌≡◌, ◌⊎◌,
}
use auto_heal.Value.{Fields, get, obj, str}
use auto_heal.Executor.Result.{ActionExecutionResult, as_dict, returned}
use auto_heal.Executor.Dispatch.{execute_action}
use auto_heal.Service.State.{
  Env, Response, State, answer, audit_entry, blocked_execution, config_at, internal_error,
  status_code, write_audit_log,
}
use auto_heal.Service.Cool.{notice_of, notify}
use auto_heal.Service.Accounts.{
  Accounted, OnRecord, blocked, content, on_record, unaudited, unnotified,
}

module _ (env : Env) (key caller user : String) where
  -- What is known of a run before it is noted, up to the entry that notes it
  pub record Ran (s t : State) (entry : Fields) : Type 0 where
    pub action_config : Fields
    pub controller_config : Fields
    pub params : Fields
    pub dry_run : Bool
    pub result : ActionExecutionResult
    pub executed :
        execute_action env.world action_config controller_config params dry_run s.events
        ≡ (returned result, t.events)
    pub same_audit : t.audit ≡ s.audit
    pub same_notices : t.notices ≡ s.notices
    pub action : String
    pub controller_name : String
    pub configured : config_at action env.actions ≡ some action_config
    pub known : config_at controller_name env.controllers ≡ some controller_config
    pub entry_user : get "user" entry ≡ some (str user)
    pub entry_unchained : get "entry_hash" entry ≡ none
    pub entry_result : get "execution" entry ≡ some (obj (as_dict result))
    pub entry_action : get "action" entry ≡ some (str action)
    pub entry_controller : get "controller" entry ≡ some (str controller_name)
    pub entry_parameters : get "parameters" entry ≡ some (obj params)

  abbrev Ran-OnRecord :
      (s t : State) (entry : Fields) (h : Ran s t entry) (r : Response)
      → OnRecord env user s (
        r,
        record t {
          audit = t.audit ++ entry ∷ [];
          notices =
              t.notices ++ notice_of h.action h.controller_name user h.result h.action_config ∷ [];
        },
      )
  Ran-OnRecord s t entry h r =
      let notice = notice_of h.action h.controller_name user h.result h.action_config in
      record {
        action_config = h.action_config;
        controller_config = h.controller_config;
        params = h.params;
        dry_run = h.dry_run;
        result = h.result;
        executed = h.executed;
        entry = entry;
        audited = ap (λ x. x ++ entry ∷ []) h.same_audit;
        entry_user = h.entry_user;
        entry_unchained = h.entry_unchained;
        entry_result = h.entry_result;
        action = h.action;
        controller_name = h.controller_name;
        configured = h.configured;
        known = h.known;
        entry_action = h.entry_action;
        entry_controller = h.entry_controller;
        entry_parameters = h.entry_parameters;
        notified = ap (λ x. x ++ notice ∷ []) h.same_notices;
      }

  -- A run is noted and told, or one of the two calls raises.
  pub noted-Accounted :
      (s t : State) (entry : Fields) (h : Ran s t (audit_entry env t.now entry)) (r : Response)
      → status_code r ≡ 200
      → get key (content r) ≡ some (obj (as_dict h.result))
      → Accounted env key caller user s (
          answer r (
            notify env h.action h.controller_name user h.result h.action_config
              (write_audit_log env entry t)))
  unfolding notify write_audit_log
  noted-Accounted s t entry h r accepted told =
      let e = audit_entry env t.now entry in
      let notice = notice_of h.action h.controller_name user h.result h.action_config in
      elim (Bool-cases (env.audit_ok e)) [
        | inr broken ↦
            rw (broken, notify, write_audit_log)
              (unaudited e broken refl h.same_audit h.same_notices)
        | inl went ↦ elim (Bool-cases (env.notify_ok notice)) [
          | inr broken ↦
              rw (went, broken, notify, write_audit_log)
                (unnotified (Ran-OnRecord s t e h internal_error) broken refl)
          | inl informed ↦
              rw (went, informed, notify, write_audit_log)
                (on_record (Ran-OnRecord s t e h r) accepted told)
        ]
      ]

  -- A block is noted and told, or its entry is not written.
  pub blocked-Accounted :
      (s : State) (entry : Fields) (reason : String) (r : Response)
      → (status_code r ≡ 409) ⊎ (status_code r ≡ 429)
      → get "user" (audit_entry env s.now entry) ≡ some (str caller)
      → get "execution" (audit_entry env s.now entry) ≡ some (obj (blocked_execution reason))
      → get key (content r) ≡ none
      → Accounted env key caller user s (answer r (write_audit_log env entry s))
  unfolding write_audit_log
  blocked-Accounted s entry reason r code by_user why untold =
      let e = audit_entry env s.now entry in
      elim (Bool-cases (env.audit_ok e)) [
        | inr broken ↦ rw (broken, write_audit_log) (unaudited e broken refl refl refl)
        | inl went ↦
            rw (went, write_audit_log) (blocked e reason code refl refl by_user why refl untold)
      ]
