-- ===== src/Notify/Alerts.antt =====
-- `send_pagerduty_notification` and `send_opsgenie_notification` of src/notifications.py.
use auto_heal.Prelude.{Bool, List, String, eqb, if◌then◌else◌, none, some, ℕ, ◌<>◌, ◌==◌}
use auto_heal.Value.{Fields, Value, dict_at, end, field, flag_at, obj, str, text_at, text_or_null}
use auto_heal.Notify.{
  Message, Outcome, Outlet, Sent, failure_only, filled, if_taken, opsgenie, pagerduty, post, posted,
  render, severity_rank, takes, template_fields, upper, with_secret, with_text,
}

abbrev pub pagerduty_events_url : Value
pagerduty_events_url = str "https://events.pagerduty.com/v2/enqueue"

abbrev pub opsgenie_alerts_url : Value
opsgenie_alerts_url = str "https://api.opsgenie.com/v2/alerts"

-- `severity or ("critical" if status == "failure" else "info")`
abbrev pub alert_severity : Message → String
alert_severity m = elim (filled m.severity) [
  | some s ↦ s
  | none ↦ if m.status == "failure" then "critical" else "info"
]

-- `default_summary` and `default_message`
unfoldable pub summary_text : Message → String
unfolding upper
summary_text m =
    "Auto-Healer: '" <> (m.action <> ("' on '" <> (m.controller <> ("' - " <> upper m.status))))

-- `SEVERITY_TO_PAGERDUTY.get(severity, "info")`
abbrev to_pagerduty : String → String
to_pagerduty s = elim (severity_rank s) [ none ↦ "info" | some rank ↦ s ]

-- `SEVERITY_TO_OPSGENIE_PRIORITY.get(severity, "P5")`
abbrev to_priority : String → String
to_priority s = if s == "warning" then "P3" else if s == "critical" then "P1" else "P5"

abbrev pub is_202 : ℕ → Bool
is_202 status = eqb status 202

abbrev pub pagerduty_payload : Message → String → Value → Fields
pagerduty_payload m summary routing_key = field "routing_key" routing_key (
    field "event_action" (str "trigger") (
      field "dedup_key" (str ("auto-healer:" <> (m.action <> (":" <> m.controller)))) (
        field "payload"
          (obj (
            field "summary" (str summary) (
              field "source" (str "auto-healer") (
                field "severity" (str (to_pagerduty (alert_severity m))) (
                  field "custom_details"
                    (obj (
                      field "user" (str m.user) (
                        field "status" (str m.status)
                          (field "details" (text_or_null m.details) end))))
                    end)))))
          end)))

-- What is sent once the channel takes the message
unfoldable pub deliver_pagerduty : Fields → Outlet → Message → List Sent → Outcome × List Sent
unfolding summary_text render severity_rank
deliver_pagerduty config o m log =
    with_text (render config pagerduty (summary_text m) (template_fields m (alert_severity m)))
      (λ summary.
        with_secret o (text_at "routing_key" (dict_at "pagerduty" config))
          (λ key.
            post o is_202
              (posted pagerduty pagerduty_events_url (pagerduty_payload m summary key) end) log)
          log)
      log

-- `send_pagerduty_notification`
unfoldable pub send_pagerduty : Fields → Outlet → Message → List Sent → Outcome × List Sent
unfolding deliver_pagerduty
send_pagerduty config o m log =
    let cfg = dict_at "pagerduty" config in
    if_taken (takes cfg (flag_at "routing_key" cfg) failure_only m.status) log
      (deliver_pagerduty config o m log)

-- `f"GenieKey {api_key}"`
abbrev shown : Outlet → Value → String
shown o (str s) = s
shown o v = o.repr v

abbrev pub opsgenie_payload : Message → String → Fields
opsgenie_payload m message = field "message" (str message) (
    field "description" (str (elim (filled m.details) [ none ↦ message | some d ↦ d ])) (
      field "priority" (str (to_priority (alert_severity m))) (
        field "source" (str "auto-healer") (
          field "details"
            (obj (
              field "user" (str m.user)
                (field "controller" (str m.controller) (field "status" (str m.status) end))))
            end))))

abbrev pub opsgenie_headers : Outlet → Value → Fields
opsgenie_headers o api_key =
    field "Authorization" (str ("GenieKey " <> shown o api_key))
      (field "Content-Type" (str "application/json") end)

-- What is sent once the channel takes the message
unfoldable pub deliver_opsgenie : Fields → Outlet → Message → List Sent → Outcome × List Sent
unfolding summary_text render severity_rank
deliver_opsgenie config o m log =
    with_text (render config opsgenie (summary_text m) (template_fields m (alert_severity m)))
      (λ message.
        with_secret o (text_at "api_key" (dict_at "opsgenie" config))
          (λ key.
            post o is_202
              (posted opsgenie opsgenie_alerts_url (opsgenie_payload m message)
                (opsgenie_headers o key))
              log)
          log)
      log

-- `send_opsgenie_notification`
unfoldable pub send_opsgenie : Fields → Outlet → Message → List Sent → Outcome × List Sent
unfolding deliver_opsgenie
send_opsgenie config o m log =
    let cfg = dict_at "opsgenie" config in
    if_taken (takes cfg (flag_at "api_key" cfg) failure_only m.status) log
      (deliver_opsgenie config o m log)
