-- ===== src/ConfigFile.antt =====
-- How the parts read their YAML files: `RateLimiter._load_config` of src/ratelimit.py,
-- `AuditShipper._load_config` and `AuditChain._load_retention_config` of src/audit.py, and
-- `NotificationSender._load_config` of src/notifications.py.
pub mod Laws
mod Tests
use mathlib.Core.Option
use auto_heal.Prelude.{Option, if◌then◌else◌, none, some}
use auto_heal.Value.{Value, end, get_or, null, obj, truthy}

-- The file is not there, opening or parsing it raises, or its value.
pub data ConfigFile : Type 0 where
  absent : ConfigFile
  unreadable : ConfigFile
  parsed : Value → ConfigFile

-- `v or {}`
abbrev pub or_empty : Value → Value
or_empty v = if truthy v then v else obj end

-- `_load_config` of the rate limiter. What is no dict is kept, and raises
-- where it is used.
unfoldable pub load_config : ConfigFile → Value
load_config absent = obj end
load_config unreadable = obj end
load_config (parsed v) = or_empty v

-- `_load_config` of the audit shipper
unfoldable pub load_shipping_config : ConfigFile → Value
load_shipping_config absent = obj end
load_shipping_config unreadable = obj end
load_shipping_config (parsed v) = or_empty v

-- `(yaml.safe_load(f) or {}).get("retention") or {}`; `none` where `get` raises
abbrev pub retention_of : Value → Option Value
retention_of (obj f) = some (or_empty (get_or "retention" null f))
retention_of v = none

-- `_load_retention_config`, for a chain with a configuration path or without
unfoldable pub load_retention_config : Option ConfigFile → Option Value
load_retention_config none = some (obj end)
load_retention_config (some absent) = some (obj end)
load_retention_config (some unreadable) = some (obj end)
load_retention_config (some (parsed v)) = retention_of (or_empty v)

-- `_load_config` of the notification sender, which catches nothing: `none` where it raises
unfoldable pub load_notification_config : ConfigFile → Option Value
load_notification_config absent = some (obj end)
load_notification_config unreadable = none
load_notification_config (parsed v) = some (or_empty v)
