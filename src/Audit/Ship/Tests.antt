-- ===== src/Audit/Ship/Tests.antt =====
-- Shipping one entry to syslog and to an HTTP endpoint.
use auto_heal.Prelude.{GrowsBy, String-discrete, [], none, refl, some, true, ◌≡◌}
use auto_heal.Value.{Fields, bool, dict_at, end, field, get, obj, str}
use auto_heal.Vault.Reference.{resolve_vault_ref, secret}
use auto_heal.Audit.Ship.{Shipper, Sinks, resolve_headers, ship, summary_message}
use auto_heal.Audit.Ship.Laws.{IsMeant, ship-GrowsBy}

abbrev sinks : Sinks
sinks = record {
  connects = λ log key. true;
  get_secret = λ path. secret (field "token" (str "t") end);
  repr = λ v. "?";
}

abbrev http_cfg : Fields
http_cfg = field "enabled" (bool true) (
    field "url" (str "https://logs.example.com")
      (field "headers" (obj (field "Authorization" (str "vault:elk#token") end)) end))

abbrev syslog_cfg : Fields
syslog_cfg = field "enabled" (bool true) (field "protocol" (str "tcp") end)

abbrev audit_config : Fields
audit_config =
    field "shipping" (obj (field "syslog" (obj syslog_cfg) (field "http" (obj http_cfg) end))) end

abbrev restart : Fields
restart = field "action" (str "restart") (field "user" (str "alice") end)

abbrev unused : Shipper
unused = record { handler = none; log = [] }

secret_header :
    resolve_headers sinks (dict_at "headers" http_cfg) ≡ some (field "Authorization" (str "t") end)
unfolding resolve_headers get String-discrete resolve_vault_ref
secret_header = refl

summary_of_restart :
    summary_message sinks restart ≡ "action 'restart' on controller 'unknown-controller' failed"
unfolding summary_message get String-discrete
summary_of_restart = refl

ship-GrowsBy_example :
    GrowsBy (IsMeant sinks audit_config restart) 3 [] (ship sinks audit_config restart unused).log
ship-GrowsBy_example = ship-GrowsBy sinks audit_config restart unused
