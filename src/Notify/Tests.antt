-- ===== src/Notify/Tests.antt =====
-- Notifications at a concrete configuration.

use auto_heal.Notify.Sender.Dedup.{Call, notify-notify_all, notify_all}
use auto_heal.Notify.Sender.Routing.{IsAllowed, notify-GrowsBy}
use auto_heal.Executor.Format.{format}
use auto_heal.Prelude.{
  GrowsBy, List, String, String-discrete, [], arith, false, none, refl, some, true, ◌∷◌, ◌≡◌,
}
use auto_heal.Value.{Fields, Items, arr, bool, cons, end, field, get, nil, null, obj, str}
use auto_heal.Vault.Reference.{resolve_vault_ref, secret}
use auto_heal.Notify.{
  Message, Outlet, dedup_window_ms, effective_severity, email, is_duplicate, opsgenie, pagerduty,
  posted, slack, teams, wants_channel,
}
use auto_heal.Notify.Setup.{setup, setup_of}
use auto_heal.Notify.Sender.{Sender, dedup_key_of, fan_out, notify, results, send_by, stopped}

-- Slack answers 200 and everything else 202; the secrets are one key.
abbrev outlet : Outlet
outlet = record {
  post = λ log s. elim s [ posted slack url payload headers ↦ some 200 | _ ↦ some 202 ];
  smtp = λ log m. true;
  get_secret = λ path. secret (field "key" (str "k") end);
  repr = λ v. "?";
}

abbrev texts : List String → Items
texts [] = nil
texts (s ∷ ss) = cons (str s) (texts ss)

-- Slack and PagerDuty are on, and only what is critical pages.
config_with : String → Fields
config_with template =
    field "slack"
      (obj
        (field "enabled" (bool true) (field "webhook_url" (str "https://hooks.slack.com/x") end)))
      (field "pagerduty"
        (obj (field "enabled" (bool true) (field "routing_key" (str "vault:pd#key") end)))
        (field "routing"
          (obj (
            field "warning" (arr (texts ("slack" ∷ [])))
              (field "critical" (arr (texts ("slack" ∷ "pagerduty" ∷ []))) end)))
          (field "templates" (obj (field "default" (str template) end)) end)))

abbrev failed_restart : Message
failed_restart = record {
  action = "restart";
  controller = "web";
  user = "alice";
  status = "failure";
  details = none;
  severity = some "critical";
}

abbrev fresh_sender : Sender
fresh_sender = record { seen = []; log = [] }

both_paged :
    (notify (config_with "See {controller}") outlet failed_restart none 1000 fresh_sender).0
    ≡ results ((slack, true) ∷ (pagerduty, true) ∷ [])
unfolding config_with notify get String-discrete fan_out effective_severity send_by format
    resolve_vault_ref
both_paged = refl

-- A template that is not closed leaves `notify` as an exception.
malformed_template :
    (notify (config_with "{action") outlet failed_restart none 1000 fresh_sender).0 ≡ stopped
unfolding config_with notify get String-discrete fan_out effective_severity send_by format
malformed_template = refl

-- The configuration of the witnesses
abbrev config : Fields
config = config_with "See the dashboard"

abbrev after_one : Sender
after_one = (notify config outlet failed_restart none 1000 fresh_sender).1

notify-GrowsBy_example :
    GrowsBy
      (IsAllowed config (effective_severity (some "critical") "failure") "failure")
      5
      []
      after_one.log
notify-GrowsBy_example = notify-GrowsBy config outlet failed_restart none 1000 fresh_sender

first_is_new : (is_duplicate config (dedup_key_of none failed_restart) 1000 []).0 ≡ some false
unfolding config_with is_duplicate get String-discrete
first_is_new = refl

-- Another action in between
abbrev other_call : Call
other_call = record {
  outlet = outlet;
  message = record failed_restart { action = "reboot" };
  dedup_key = none;
  at = 5000;
}

window : dedup_window_ms config ≡ some 300000
unfolding config_with get String-discrete
window = refl

notify-notify_all_example :
    notify config outlet failed_restart none 200000 (notify_all config (other_call ∷ []) after_one)
    ≡ (results [], notify_all config (other_call ∷ []) after_one)
unfolding config_with get String-discrete
notify-notify_all_example =
    notify-notify_all config 300000 refl window outlet outlet failed_restart failed_restart none
      none 1000 200000 (other_call ∷ []) fresh_sender refl first_is_new (omega arith, tt)
      (omega arith)

-- A routing of null to a severity stops `notify`.
null_routing :
    (notify
      (field "routing" (obj (field "warning" null end)) end)
      outlet
      (record failed_restart { severity = none })
      none
      1000
      fresh_sender).0
    ≡ stopped
unfolding notify get String-discrete fan_out effective_severity wants_channel is_duplicate
null_routing = refl

-- An empty section stops the sender's set-up for Slack and Teams, and for no other channel.
abbrev empty_email : Fields
empty_email = field "email" null end

null_sections :
    (setup (field "slack" null end) ≡ none)
    × (setup (field "teams" null end) ≡ none)
    × (setup empty_email
        ≡ some (
            setup_of empty_email (record {
              slack = end;
              teams = end;
              email = end;
              pagerduty = end;
              opsgenie = end;
              dedup = end;
            })))
unfolding setup get String-discrete
null_sections = (refl, refl, refl)
