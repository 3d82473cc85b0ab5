-- ===== src/ConfigFile/Laws.antt =====
-- What the parts do when their configuration cannot be read.

use auto_heal.Prelude.{List, Option, String, arith, false, none, refl, some, ◌≡◌}
use auto_heal.Value.{Fields, Value, dict_of, end, get, obj, truthy}
use auto_heal.RateLimit.{default_requests_per_minute, limit_for_action, limit_for_role}
use auto_heal.Audit.{Line}
use auto_heal.Audit.Rotate.{Disk, Store, keep, maybe_rotate, should_rotate}
use auto_heal.Audit.Ship.{Shipper, Sinks, ship}
use auto_heal.ConfigFile.{
  ConfigFile, absent, load_config, load_retention_config, load_shipping_config, parsed, unreadable,
}

-- A file that gives no configuration
pub data IsUnread : ConfigFile → Type 0 where
  missing : IsUnread absent
  broken : IsUnread unreadable
  empty : (v : Value) → truthy v ≡ false → IsUnread (parsed v)

load_config-IsUnread : (file : ConfigFile) → IsUnread file → load_config file ≡ obj end
unfolding load_config
load_config-IsUnread absent missing = refl
load_config-IsUnread unreadable broken = refl
load_config-IsUnread (parsed v) (empty u h) = rw h refl

load_shipping_config-IsUnread :
    (file : ConfigFile) → IsUnread file → load_shipping_config file ≡ obj end
unfolding load_shipping_config
load_shipping_config-IsUnread absent missing = refl
load_shipping_config-IsUnread unreadable broken = refl
load_shipping_config-IsUnread (parsed v) (empty u h) = rw h refl

load_retention_config-IsUnread :
    (file : ConfigFile) → IsUnread file → load_retention_config (some file) ≡ some (obj end)
unfolding load_retention_config get
load_retention_config-IsUnread absent missing = refl
load_retention_config-IsUnread unreadable broken = refl
load_retention_config-IsUnread (parsed v) (empty u h) = rw h refl

limit_for_role-end :
    (role : Option String) → limit_for_role end role ≡ some default_requests_per_minute
unfolding limit_for_role get
limit_for_role-end none = refl
limit_for_role-end (some role) = ground (arith)

should_rotate-end : (d : Disk) (log : Option (List Line)) → should_rotate d end log ≡ keep
unfolding should_rotate get
should_rotate-end d none = refl
should_rotate-end d (some lines) = refl

-- With files that are missing, unreadable or empty every role has the default limit and no action
-- has one of its own, the log is never rotated, and nothing is shipped.
pub load_config-defaults :
    (file : ConfigFile) (role : Option String) (event_type : String) (hash_entry : Fields → String)
    (d : Disk) (s : Store) (o : Sinks) (e : Fields) (shipper : Shipper)
    → IsUnread file
    → (limit_for_role (dict_of (load_config file)) role ≡ some default_requests_per_minute)
      × (limit_for_action (dict_of (load_config file)) event_type ≡ none)
      × (load_retention_config (some file) ≡ some (obj end))
      × (maybe_rotate hash_entry d end s ≡ some s)
      × (ship o (dict_of (load_shipping_config file)) e shipper ≡ shipper)
unfolding limit_for_role limit_for_action get maybe_rotate ship
load_config-defaults file role event_type hash_entry d s o e shipper none_read =
    rw (load_config-IsUnread file none_read, load_shipping_config-IsUnread file none_read)
      (
        limit_for_role-end role,
        refl,
        load_retention_config-IsUnread file none_read,
        rw (should_rotate-end d s.log, maybe_rotate) refl,
        refl,
      )
