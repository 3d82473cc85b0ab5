-- ===== src/Service/Recorded.antt =====
-- The last two lines of `write_audit_log` of src/main.py: each entry is appended to the log, and
-- what was written is shipped.
pub mod Laws
mod Tests
use mathlib.Core.Option
use auto_heal.Prelude.{List, Option, String, [], map, none, some, ◌∷◌}
use auto_heal.Value.{Fields}
use auto_heal.Audit.{finalized}
use auto_heal.Audit.Rotate.{Disk, Store, lines_of, maybe_rotate, written}
use auto_heal.Audit.Ship.{Shipper, Sinks, ship}

-- The chain has a disk and the `retention` section, the shipper its sinks and the configuration.
module _ (hash_entry : Fields → String) (d : Disk) (retention : Fields) (o : Sinks)
    (config : Fields) where
  -- The entry after the rotation: `finalized` is what `audit_chain.append` returns.
  abbrev pub append_then_ship : Fields → Shipper → Store → Store × Shipper
  append_then_ship f shipper s =
      (written hash_entry d f s, ship o config (finalized hash_entry f (lines_of s.log)) shipper)

  -- `finalized = audit_chain.append(audit_entry)` and `audit_shipper.ship(finalized)`; `none` where
  -- the rotation raises
  unfoldable pub append_and_ship : Fields → Store × Shipper → Option (Store × Shipper)
  append_and_ship f (s, shipper) =
      Option.map (append_then_ship f shipper) (maybe_rotate hash_entry d retention s)

  -- The entries of a request, in order
  unfoldable pub record_all : List Fields → Store × Shipper → Option (Store × Shipper)
  record_all [] x = some x
  record_all (f ∷ fs) x = elim (append_and_ship f x) [ none ↦ none | some y ↦ record_all fs y ]
