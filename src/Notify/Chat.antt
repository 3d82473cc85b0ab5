-- ===== src/Notify/Chat.antt =====
-- `send_slack_notification` and `send_teams_notification` of src/notifications.py.
use auto_heal.Prelude.{Bool, List, Option, String, eqb, none, some, ℕ, ◌<>◌, ◌||◌}
use auto_heal.Value.{Fields, arr, cons, dict_at, end, field, flag_at, get_or, nil, null, obj, str}
use auto_heal.Notify.{
  Message, Outcome, Outlet, Sent, both, filled, if_taken, post, posted, render, severity_or_info,
  slack, takes, teams, template_fields, upper, with_text,
}

abbrev pub is_200 : ℕ → Bool
is_200 status = eqb status 200

abbrev pub is_200_or_201 : ℕ → Bool
is_200_or_201 status = eqb status 200 || eqb status 201

abbrev with_details : String → String → Option String → String
with_details t label details = elim (filled details) [ none ↦ t | some d ↦ t <> (label <> d) ]

unfoldable pub slack_text : Message → String
unfolding upper
slack_text m =
    with_details
      ("*Auto-Healer Notification*\n*Action:* `"
        <> (m.action
            <> ("`\n*Controller:* `"
                <> (m.controller
                    <> ("`\n*User:* `"
                        <> (m.user <> ("`\n*Status:* `" <> (upper m.status <> "`"))))))))
      "\n*Details:* " m.details

abbrev pub slack_message : Fields → String → Sent
slack_message cfg t =
    let attachment =
      field "color" (str "#439FE0")
        (field "text" (str t) (field "mrkdwn_in" (arr (cons (str "text") nil)) end)) in
    posted slack (get_or "webhook_url" null cfg)
      (field "channel" (get_or "channel" null cfg) (
        field "username" (get_or "username" (str "AutoHealerBot") cfg)
          (field "attachments" (arr (cons (obj attachment) nil)) end)))
      end

-- What is sent once the channel takes the message
unfoldable pub deliver_slack : Fields → Outlet → Message → List Sent → Outcome × List Sent
unfolding slack_text render
deliver_slack config o m log =
    with_text (render config slack (slack_text m) (template_fields m (severity_or_info m)))
      (λ t. post o is_200 (slack_message (dict_at "slack" config) t) log) log

-- `send_slack_notification`
unfoldable pub send_slack : Fields → Outlet → Message → List Sent → Outcome × List Sent
unfolding deliver_slack
send_slack config o m log =
    let cfg = dict_at "slack" config in
    if_taken (takes cfg (flag_at "webhook_url" cfg) both m.status) log
      (deliver_slack config o m log)

unfoldable pub teams_text : Message → String
unfolding upper
teams_text m =
    with_details
      ("**Auto-Healer Notification**\n**Action:** `"
        <> (m.action
            <> ("`\n**Controller:** `"
                <> (m.controller
                    <> ("`\n**User:** `"
                        <> (m.user <> ("`\n**Status:** `" <> (upper m.status <> "`"))))))))
      "\n**Details:** " m.details

abbrev pub teams_message : Fields → String → Sent
teams_message cfg t =
    posted teams (get_or "webhook_url" null cfg)
      (field "@type" (str "MessageCard") (
        field "themeColor" (str "0076D7")
          (field "sections" (arr (cons (obj (field "text" (str t) end)) nil)) end)))
      end

-- What is sent once the channel takes the message
unfoldable pub deliver_teams : Fields → Outlet → Message → List Sent → Outcome × List Sent
unfolding teams_text render
deliver_teams config o m log =
    with_text (render config teams (teams_text m) (template_fields m (severity_or_info m)))
      (λ t. post o is_200_or_201 (teams_message (dict_at "teams" config) t) log) log

-- `send_teams_notification`
unfoldable pub send_teams : Fields → Outlet → Message → List Sent → Outcome × List Sent
unfolding deliver_teams
send_teams config o m log =
    let cfg = dict_at "teams" config in
    if_taken (takes cfg (flag_at "webhook_url" cfg) both m.status) log
      (deliver_teams config o m log)
