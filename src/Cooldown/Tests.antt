-- ===== src/Cooldown/Tests.antt =====
-- The tracker at concrete runs.
use auto_heal.Prelude.{String, String-discrete, [], arith, false, inr, refl, some, true, ◌∷◌, ◌≡◌}
use auto_heal.Dict.{insert, lookup}
use auto_heal.Dict.Keys.{erase_all, keys_where}
use auto_heal.Cooldown.{Tracker, holds, load, make_key, missing, record_run, seconds_remaining}
use auto_heal.Cooldown.Laws.{IsProper, seconds_remaining-load, seconds_remaining-record_run}

abbrev key : String
key = "restart_deployment|dc2-oc|web"

key_of_run : make_key "restart_deployment" "dc2-oc" (some "web") ≡ key
unfolding make_key
key_of_run = refl

abbrev tracker : Tracker
tracker = record { last_run = ("old|local|", 5) ∷ []; state_file = missing }

tracker-IsProper : IsProper tracker
unfolding lookup
tracker-IsProper = (refl, tt)

-- A run drops the records that are more than a day old.
stale_record_goes :
    record_run key 86400006 true tracker
    ≡ record { last_run = (key, 86400006) ∷ []; state_file = holds ((key, 86400006) ∷ []) }
unfolding record_run insert keys_where erase_all String-discrete
stale_record_goes = refl

seconds_remaining-record_run_example :
    seconds_remaining "old|local|" 300000 2000 (record_run key 1000 false tracker)
    ≡ seconds_remaining "old|local|" 300000 2000 tracker
unfolding String-discrete
seconds_remaining-record_run_example =
    seconds_remaining-record_run key "old|local|" 1000 2000 300000 false tracker tracker-IsProper
      (inr (omega arith, omega arith))

seconds_remaining-load_example :
    seconds_remaining key 300000 61000 (load (record_run key 1000 true tracker).state_file)
    ≡ some 240000
seconds_remaining-load_example =
    seconds_remaining-load key 1000 61000 300000 tracker tracker-IsProper
