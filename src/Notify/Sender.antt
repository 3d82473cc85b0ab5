-- ===== src/Notify/Sender.antt =====
-- `notify` of src/notifications.py.
pub mod Rules
pub mod Routing
pub mod Dedup
pub mod Templates
use auto_heal.Prelude.{Bool, List, Option, String, [], false, none, some, true, ℕ, ◌<>◌, ◌∷◌}
use auto_heal.Dict.{Dict}
use auto_heal.Value.{Fields}
use auto_heal.Notify.{
  Channel, Message, Outcome, Outlet, Sent, effective_severity, email, filled, is_duplicate,
  opsgenie, pagerduty, raised, sent, slack, teams, wants_channel,
}
use auto_heal.Notify.Chat.{send_slack, send_teams}
use auto_heal.Notify.Email.{send_email}
use auto_heal.Notify.Alerts.{send_opsgenie, send_pagerduty}

-- The method of a channel
unfoldable pub send_by : Channel → Fields → Outlet → Message → List Sent → Outcome × List Sent
unfolding send_slack send_teams send_email send_pagerduty send_opsgenie
send_by slack = send_slack
send_by teams = send_teams
send_by email = send_email
send_by pagerduty = send_pagerduty
send_by opsgenie = send_opsgenie

-- The channels in the order of the dict in `notify`
abbrev pub channels : List Channel
channels = slack ∷ teams ∷ email ∷ pagerduty ∷ opsgenie ∷ []

-- The results by channel, or an exception
pub data Results : Type 0 where
  results : List (Channel × Bool) → Results
  stopped : Results

abbrev pub add_result : Channel → Bool → Results × List Sent → Results × List Sent
add_result c delivered (results rs, log) = (results ((c, delivered) ∷ rs), log)
add_result c delivered (stopped, log) = (stopped, log)

-- What follows a channel: the channels after it, unless it raised
abbrev pub and_then :
    Channel → Outcome × List Sent → (List Sent → Results × List Sent) → Results × List Sent
and_then c (sent delivered, log) rest = add_result c delivered (rest log)
and_then c (raised, log) rest = (stopped, log)

abbrev pub if_wanted :
    Option Bool
    → List Sent
    → (List Sent → Results × List Sent)
    → Results × List Sent
    → Results × List Sent
if_wanted none log rest taken = (stopped, log)
if_wanted (some false) log rest taken = rest log
if_wanted (some true) log rest taken = taken

-- The loop over the channels
unfoldable pub fan_out :
    List Channel → Fields → Outlet → String → Message → List Sent → Results × List Sent
unfolding wants_channel
fan_out [] config o severity m log = (results [], log)
fan_out (c ∷ cs) config o severity m log =
    let rest = fan_out cs config o severity m in
    if_wanted (wants_channel config c severity) log rest
      (and_then c (send_by c config o m log) rest)

-- What a sender keeps: the times of deduplication, and what went out
pub record Sender : Type 0 where
  pub seen : Dict ℕ
  pub log : List Sent

-- `dedup_key or f"{action}:{controller}:{status}"`
abbrev pub dedup_key_of : Option String → Message → String
dedup_key_of dedup_key m = elim (filled dedup_key) [
  | some key ↦ key
  | none ↦ m.action <> (":" <> (m.controller <> (":" <> m.status)))
]

-- The message that the channels get
abbrev pub with_severity : Message → Message
with_severity m = record m { severity = some (effective_severity m.severity m.status) }

abbrev pub after_dedup :
    Fields → Outlet → Message → List Sent → Option Bool × Dict ℕ → Results × Sender
after_dedup config o m log (none, seen) = (stopped, record { seen = seen; log = log })
after_dedup config o m log (some true, seen) = (results [], record { seen = seen; log = log })
after_dedup config o m log (some false, seen) =
    let (rs, log') =
      fan_out channels config o (effective_severity m.severity m.status) (with_severity m) log in
    (rs, record { seen = seen; log = log' })

-- `notify`, at the time `now`
unfoldable pub notify : Fields → Outlet → Message → Option String → ℕ → Sender → Results × Sender
unfolding is_duplicate
notify config o m dedup_key now s =
    after_dedup config o m s.log (is_duplicate config (dedup_key_of dedup_key m) now s.seen)
