-- ===== src/ConfigFile/Tests.antt =====
-- A configuration file that cannot be read, and one without a retention section.

use auto_heal.Prelude.{String-discrete, [], false, none, refl, some, ◌≡◌}
use auto_heal.Value.{arr, cons, dict_of, end, field, get, nil, null, obj}
use auto_heal.RateLimit.{default_requests_per_minute, limit_for_action, limit_for_role}
use auto_heal.Audit.Rotate.{maybe_rotate}
use auto_heal.Audit.Ship.{Shipper, Sinks, ship}
use auto_heal.Audit.Tests.{disk, first_store, restart_entry, toy_hash}
use auto_heal.Vault.Reference.{unavailable}
use auto_heal.ConfigFile.{
  load_config, load_notification_config, load_retention_config, load_shipping_config, parsed,
  unreadable,
}
use auto_heal.ConfigFile.Laws.{broken, load_config-defaults}

abbrev closed : Sinks
closed = record {
  connects = λ log key. false;
  get_secret = λ path. unavailable "no Vault";
  repr = λ v. "?";
}

abbrev fresh : Shipper
fresh = record { handler = none; log = [] }

load_config-defaults_example :
    (limit_for_role (dict_of (load_config unreadable)) (some "admin")
      ≡ some default_requests_per_minute)
    × (limit_for_action (dict_of (load_config unreadable)) "restart" ≡ none)
    × (load_retention_config (some unreadable) ≡ some (obj end))
    × (maybe_rotate toy_hash disk end first_store ≡ some first_store)
    × (ship closed (dict_of (load_shipping_config unreadable)) restart_entry fresh ≡ fresh)
load_config-defaults_example =
    load_config-defaults unreadable (some "admin") "restart" toy_hash disk first_store closed
      restart_entry fresh broken

-- Without the section the log is kept as it is; a file that is a list raises.
retention :
    (load_retention_config (some (parsed (obj (field "shipping" (obj end) end)))) ≡ some (obj end))
    × (load_retention_config (some (parsed (arr (cons null nil)))) ≡ none)
    × (load_notification_config unreadable ≡ none)
unfolding load_retention_config load_notification_config get String-discrete
retention = (refl, refl, refl)
