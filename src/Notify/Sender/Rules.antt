-- ===== src/Notify/Sender/Rules.antt =====
-- One rule for what holds of a channel's result: for a message that is not sent, for a template that
-- raises, and for one thing sent to the channel.
use auto_heal.Prelude.{
  Bool, Bool-cases, List, Option, Option-cases, String, [], arith, false, if◌then◌else◌, inl, inr,
  none, refl, some, true, ℕ, ◌&&◌, ◌++◌, ◌==◌, ◌∷◌, ◌≡◌,
}
use auto_heal.Dict.{Dict}
use auto_heal.Value.{Fields, Items, Value, dict_at, end, flag_at, null, text_at, text_or_null}
use auto_heal.Vault.Reference.{from_vault, no_secret, plain, resolve_vault_ref}
use auto_heal.Notify.{
  Channel, Message, Outcome, Outlet, Sent, Text, bad_template, both, email, failure_only, if_taken,
  is_notified_on, mailed, name_of, opsgenie, pagerduty, post, posted, raised, render, sent,
  severity_or_info, slack, takes, teams, template_fields, text_is, with_secret, with_text,
}
use auto_heal.Notify.Chat.{
  deliver_slack, deliver_teams, is_200, is_200_or_201, slack_message, slack_text, teams_message,
  teams_text,
}
use auto_heal.Notify.Email.{deliver_email, email_body, hand_over, mail, with_credential}
use auto_heal.Notify.Alerts.{
  alert_severity, deliver_opsgenie, deliver_pagerduty, is_202, opsgenie_alerts_url,
  opsgenie_headers, opsgenie_payload, pagerduty_events_url, pagerduty_payload, summary_text,
}
use auto_heal.Notify.Sender.{send_by}

abbrev pub channel_of : Sent → Channel
channel_of (posted c url payload headers) = c
channel_of (mailed m) = email

-- The statuses that a channel is told of by default
abbrev pub default_on : Channel → Items
default_on pagerduty = failure_only
default_on opsgenie = failure_only
default_on _ = both

abbrev pub cfg_of : Fields → Channel → Fields
cfg_of config c = dict_at (name_of c) config

-- The channel is switched on, and is told of the status.
abbrev pub Listens : Fields → Channel → String → Type 0
Listens config c status =
    (flag_at "enabled" (cfg_of config c) ≡ true)
    × (is_notified_on (cfg_of config c) (default_on c) status ≡ some true)

outer_tests :
    (a b : Bool) (c : Option Bool)
    → (if a && b then c else some false) ≡ some true
    → (a ≡ true) × (c ≡ some true)
outer_tests a b c h = ground arith

unread : (a b : Bool) (c : Option Bool) → (if a && b then c else some false) ≡ none → c ≡ none
unread a b c h = ground arith

module _ (P : Outcome × List Sent → Type 0) (log : List Sent) where
  with_text_rule :
      (t : Text) (k : String → Outcome × List Sent)
      → (t ≡ bad_template → P (raised, log))
      → ((s : String) → P (k s))
      → P (with_text t k log)
  with_text_rule bad_template k bad h = bad refl
  with_text_rule (text_is t) k bad h = h t

  with_secret_rule :
      (o : Outlet) (value : Option String) (k : Value → Outcome × List Sent)
      → P (sent false, log)
      → ((v : Value) → P (k v))
      → P (with_secret o value k log)
  with_secret_rule o value k failed h =
      elim (resolve_vault_ref o.get_secret value none)
        as (λ r. P (elim r [
          | no_secret e ↦ (sent false, log)
          | plain v ↦ k (text_or_null v)
          | from_vault v ↦ k v
        ])) [ no_secret e ↦ failed | plain v ↦ h (text_or_null v) | from_vault v ↦ h v ]

  with_credential_rule :
      (o : Outlet) (value : Option String) (k : Value → Outcome × List Sent)
      → P (sent false, log)
      → ((v : Value) → P (k v))
      → P (with_credential o value k log)
  with_credential_rule o none k failed h = h null
  with_credential_rule o (some s) k failed h = elim (Bool-cases (s == "")) [
    | inl empty ↦ rw (empty, with_credential) (h null)
    | inr full ↦ rw (full, with_credential) (with_secret_rule o (some s) k failed h)
  ]

  post_rule :
      (o : Outlet) (ok : ℕ → Bool) (s : Sent)
      → ((b : Bool) → P (sent b, log ++ s ∷ []))
      → P (post o ok s log)
  post_rule o ok s h = elim (Option-cases (o.post log s)) [
    | inl failed ↦ rw (failed, post) (h false)
    | inr (status, e) ↦ rw (e, post) (h (ok status))
  ]

  module _ (config : Fields) (o : Outlet) (m : Message) (failed : P (sent false, log))
      (bad : (c : Channel) (default_text : String) (fields : Dict String)
        → render config c default_text fields ≡ bad_template
        → P (raised, log)) where
    slack_rule :
        ((s : Sent) (b : Bool) → channel_of s ≡ slack → P (sent b, log ++ s ∷ []))
        → P (deliver_slack config o m log)
    unfolding deliver_slack
    slack_rule one =
        with_text_rule (render config slack (slack_text m) (template_fields m (severity_or_info m)))
          (λ t. post o is_200 (slack_message (cfg_of config slack) t) log)
          (bad slack (slack_text m) (template_fields m (severity_or_info m)))
          (λ t.
            post_rule o is_200 (slack_message (cfg_of config slack) t)
              (λ b. one (slack_message (cfg_of config slack) t) b refl))

    teams_rule :
        ((s : Sent) (b : Bool) → channel_of s ≡ teams → P (sent b, log ++ s ∷ []))
        → P (deliver_teams config o m log)
    unfolding deliver_teams
    teams_rule one =
        with_text_rule (render config teams (teams_text m) (template_fields m (severity_or_info m)))
          (λ t. post o is_200_or_201 (teams_message (cfg_of config teams) t) log)
          (bad teams (teams_text m) (template_fields m (severity_or_info m)))
          (λ t.
            post_rule o is_200_or_201 (teams_message (cfg_of config teams) t)
              (λ b. one (teams_message (cfg_of config teams) t) b refl))

    email_rule :
        ((s : Sent) (b : Bool) → channel_of s ≡ email → P (sent b, log ++ s ∷ []))
        → P (deliver_email config o m log)
    unfolding deliver_email
    email_rule one =
        let cfg = cfg_of config email in
        let finish = λ (body : String) (username password : Value).
          hand_over o (mail cfg m body username password) log in
        let ask = λ (body : String) (username : Value).
          with_credential o (text_at "password" cfg) (finish body username) log in
        with_text_rule (render config email (email_body m) (template_fields m (severity_or_info m)))
          (λ body. with_credential o (text_at "username" cfg) (ask body) log)
          (bad email (email_body m) (template_fields m (severity_or_info m)))
          (λ body. with_credential_rule o (text_at "username" cfg) (ask body) failed (λ username.
            with_credential_rule o (text_at "password" cfg) (finish body username) failed
              (λ password.
                let message = mail cfg m body username password in
                one (mailed message) (o.smtp log message) refl)))

    pagerduty_rule :
        ((s : Sent) (b : Bool) → channel_of s ≡ pagerduty → P (sent b, log ++ s ∷ []))
        → P (deliver_pagerduty config o m log)
    unfolding deliver_pagerduty
    pagerduty_rule one =
        with_text_rule
          (render config pagerduty (summary_text m) (template_fields m (alert_severity m)))
          (λ t.
            with_secret o (text_at "routing_key" (cfg_of config pagerduty))
              (λ v.
                post o is_202 (posted pagerduty pagerduty_events_url (pagerduty_payload m t v) end)
                  log)
              log)
          (bad pagerduty (summary_text m) (template_fields m (alert_severity m)))
          (λ t.
            with_secret_rule o (text_at "routing_key" (cfg_of config pagerduty))
              (λ v.
                post o is_202 (posted pagerduty pagerduty_events_url (pagerduty_payload m t v) end)
                  log)
              failed
              (λ v.
                post_rule o is_202
                  (posted pagerduty pagerduty_events_url (pagerduty_payload m t v) end)
                  (λ b.
                    one (posted pagerduty pagerduty_events_url (pagerduty_payload m t v) end) b
                      refl)))

    opsgenie_rule :
        ((s : Sent) (b : Bool) → channel_of s ≡ opsgenie → P (sent b, log ++ s ∷ []))
        → P (deliver_opsgenie config o m log)
    unfolding deliver_opsgenie
    opsgenie_rule one =
        with_text_rule
          (render config opsgenie (summary_text m) (template_fields m (alert_severity m)))
          (λ t.
            with_secret o (text_at "api_key" (cfg_of config opsgenie))
              (λ v.
                post o is_202
                  (posted opsgenie opsgenie_alerts_url (opsgenie_payload m t)
                    (opsgenie_headers o v))
                  log)
              log)
          (bad opsgenie (summary_text m) (template_fields m (alert_severity m)))
          (λ t.
            with_secret_rule o (text_at "api_key" (cfg_of config opsgenie))
              (λ v.
                post o is_202
                  (posted opsgenie opsgenie_alerts_url (opsgenie_payload m t)
                    (opsgenie_headers o v))
                  log)
              failed
              (λ v.
                post_rule o is_202
                  (posted opsgenie opsgenie_alerts_url (opsgenie_payload m t)
                    (opsgenie_headers o v))
                  (λ b.
                    one
                      (posted opsgenie opsgenie_alerts_url (opsgenie_payload m t)
                        (opsgenie_headers o v))
                      b refl)))

  takes_rule :
      (config : Fields) (c : Channel) (has_address : Bool) (status : String)
      (r : Outcome × List Sent)
      → P (sent false, log)
      → (is_notified_on (cfg_of config c) (default_on c) status ≡ none → P (raised, log))
      → (Listens config c status → P r)
      → P (if_taken (takes (cfg_of config c) has_address (default_on c) status) log r)
  takes_rule config c has_address status r off unreadable h =
      go (takes (cfg_of config c) has_address (default_on c) status) refl
    where
      go :
          (t : Option Bool)
          → takes (cfg_of config c) has_address (default_on c) status ≡ t
          → P (if_taken t log r)
      go none e = unreadable (
          unread (flag_at "enabled" (cfg_of config c)) has_address
            (is_notified_on (cfg_of config c) (default_on c) status) e)
      go (some false) e = off
      go (some true) e = h (
          outer_tests (flag_at "enabled" (cfg_of config c)) has_address
            (is_notified_on (cfg_of config c) (default_on c) status) e)

  -- The rule: it holds of a message that is not sent, of a `notify_on` that nothing can be in, of a
  -- template that raises, and of one thing sent to a channel that listens.
  pub send_by_rule :
      (c : Channel) (config : Fields) (o : Outlet) (m : Message)
      → P (sent false, log)
      → (is_notified_on (cfg_of config c) (default_on c) m.status ≡ none → P (raised, log))
      → ((d : Channel) (default_text : String) (fields : Dict String)
          → render config d default_text fields ≡ bad_template
          → P (raised, log))
      → ((s : Sent) (b : Bool)
          → channel_of s ≡ c
          → Listens config c m.status
          → P (sent b, log ++ s ∷ []))
      → P (send_by c config o m log)
  unfolding send_by
  send_by_rule slack config o m failed unreadable bad one =
      takes_rule config slack (flag_at "webhook_url" (cfg_of config slack)) m.status
        (deliver_slack config o m log) failed unreadable
        (λ on. slack_rule config o m failed bad (λ s b to. one s b to on))
  send_by_rule teams config o m failed unreadable bad one =
      takes_rule config teams (flag_at "webhook_url" (cfg_of config teams)) m.status
        (deliver_teams config o m log) failed unreadable
        (λ on. teams_rule config o m failed bad (λ s b to. one s b to on))
  send_by_rule email config o m failed unreadable bad one =
      let cfg = cfg_of config email in
      takes_rule config email (flag_at "smtp_host" cfg && flag_at "to_addrs" cfg) m.status
        (deliver_email config o m log) failed unreadable
        (λ on. email_rule config o m failed bad (λ s b to. one s b to on))
  send_by_rule pagerduty config o m failed unreadable bad one =
      takes_rule config pagerduty (flag_at "routing_key" (cfg_of config pagerduty)) m.status
        (deliver_pagerduty config o m log) failed unreadable
        (λ on. pagerduty_rule config o m failed bad (λ s b to. one s b to on))
  send_by_rule opsgenie config o m failed unreadable bad one =
      takes_rule config opsgenie (flag_at "api_key" (cfg_of config opsgenie)) m.status
        (deliver_opsgenie config o m log) failed unreadable
        (λ on. opsgenie_rule config o m failed bad (λ s b to. one s b to on))
