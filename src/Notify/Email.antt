-- ===== src/Notify/Email.antt =====
-- `send_email_notification` of src/notifications.py.
use auto_heal.Prelude.{
  List, Option, String, [], if◌then◌else◌, none, pos, some, true, ◌&&◌, ◌++◌, ◌<>◌, ◌∷◌,
}
use auto_heal.Value.{Fields, Value, bool, dict_at, flag_at, get_or, null, num, str, text_at, truthy}
use auto_heal.Notify.{
  Mail, Message, Outcome, Outlet, Sent, both, email, filled, if_taken, mailed, render, sent,
  severity_or_info, takes, template_fields, upper, with_secret, with_text,
}

abbrev with_details : String → Option String → String
with_details body details = elim (filled details) [
  | none ↦ body
  | some d ↦ body <> ("\nDetails:\n" <> (d <> "\n"))
]

unfoldable pub email_body : Message → String
unfolding upper
email_body m =
    with_details
      ("Auto-Healer executed '"
        <> (m.action
            <> ("' on controller '"
                <> (m.controller
                    <> ("'.\n\nStatus: "
                        <> (upper m.status
                            <> ("\nSeverity: "
                                <> (severity_or_info m
                                    <> ("\nTriggered by: " <> (m.user <> "\n"))))))))))
      m.details

-- `resolve_vault_ref(v) if v else None`
abbrev pub with_credential :
    Outlet → Option String → (Value → Outcome × List Sent) → List Sent → Outcome × List Sent
with_credential o v k log = elim (filled v) [
  | none ↦ k null
  | some reference ↦ with_secret o (some reference) k log
]

-- `self.email_from or username or "auto-healer@localhost"`
abbrev from_of : Value → Value → Value
from_of configured username =
    if truthy configured
    then configured
    else if truthy username
    then username
    else str "auto-healer@localhost"

abbrev login_of : Value → Value → Option (Value × Value)
login_of username password =
    if truthy username && truthy password then some (username, password) else none

abbrev pub mail : Fields → Message → String → Value → Value → Mail
mail cfg m body username password = record {
  smtp_host = get_or "smtp_host" null cfg;
  smtp_port = get_or "smtp_port" (num (pos 587)) cfg;
  use_tls = truthy (get_or "use_tls" (bool true) cfg);
  login = login_of username password;
  sender = from_of (get_or "from_addr" null cfg) username;
  recipients = get_or "to_addrs" null cfg;
  subject =
      "[Auto-Healer] " <> (m.action <> (" on " <> (m.controller <> (" - " <> upper m.status))));
  body = body;
}

-- The session with the server
abbrev pub hand_over : Outlet → Mail → List Sent → Outcome × List Sent
hand_over o message log = (sent (o.smtp log message), log ++ mailed message ∷ [])

-- What is sent once the channel takes the message
unfoldable pub deliver_email : Fields → Outlet → Message → List Sent → Outcome × List Sent
unfolding email_body render
deliver_email config o m log =
    let cfg = dict_at "email" config in
    with_text (render config email (email_body m) (template_fields m (severity_or_info m)))
      (λ body.
        with_credential o (text_at "username" cfg)
          (λ username.
            with_credential o (text_at "password" cfg)
              (λ password. hand_over o (mail cfg m body username password) log) log)
          log)
      log

-- `send_email_notification`
unfoldable pub send_email : Fields → Outlet → Message → List Sent → Outcome × List Sent
unfolding deliver_email
send_email config o m log =
    let cfg = dict_at "email" config in
    if_taken (takes cfg (flag_at "smtp_host" cfg && flag_at "to_addrs" cfg) both m.status) log
      (deliver_email config o m log)
