-- ===== src/RateLimit/Tests.antt =====
-- The limiter at concrete calls.
use auto_heal.Prelude.{
  List, Option, String, String-discrete, [], arith, none, pos, refl, some, ℤ, ◌∷◌, ◌≡◌, ◌≤◌,
}
use auto_heal.Value.{Fields, end, field, get, num, obj}
use auto_heal.Dict.{insert, lookup}
use auto_heal.RateLimit.{check, limit_for_action, limit_for_role}
use auto_heal.RateLimit.Deque.{Hits, recorded}
use auto_heal.RateLimit.Window.{count_in}
use auto_heal.RateLimit.Retry.{retry_after-suffices}
use auto_heal.RateLimit.Traffic.{Call, count_in-passed, passed}

-- config/rate_limits.yaml
abbrev shipped : Fields
shipped = field "default" (obj (field "requests_per_minute" (num (pos 60)) end)) (
    field "per_role"
      (obj (
        field "readonly" (obj (field "requests_per_minute" (num (pos 20)) end))
          (field "admin" (obj (field "requests_per_minute" (num (pos 120)) end)) end)))
      (field "per_action"
        (obj
          (field "restart_deployment" (obj (field "requests_per_minute" (num (pos 10)) end)) end))
        end))

role_limits :
    (limit_for_role shipped (some "readonly") ≡ some (pos 20))
    × (limit_for_role shipped (some "operator") ≡ some (pos 60))
    × (limit_for_role shipped none ≡ some (pos 60))
    × (limit_for_role end (some "admin") ≡ some (pos 60))
unfolding limit_for_role get String-discrete
role_limits = (refl, refl, refl, refl)

action_limits :
    (limit_for_action shipped "restart_deployment" ≡ some (pos 10))
    × (limit_for_action shipped "cleanup_disk" ≡ none)
unfolding limit_for_action get String-discrete
action_limits = (refl, refl)

abbrev two : String → Option ℤ
two k = some (pos 2)

abbrev calls : List Call
calls =
    record { key = "a"; at = 1 }
    ∷ record { key = "b"; at = 2 }
    ∷ record { key = "a"; at = 3 }
    ∷ record { key = "a"; at = 9 }
    ∷ record { key = "a"; at = 11 }
    ∷ []

calls_let_through : passed two 10 "a" calls [] ≡ 1 ∷ 3 ∷ 11 ∷ []
unfolding passed check recorded lookup insert String-discrete
calls_let_through = refl

count_in-passed_example : count_in 2 10 (passed two 10 "a" calls []) ≤ 2
count_in-passed_example = count_in-passed two 10 "a" refl calls 2 (omega arith)

abbrev full : Hits
full = ("a", 1000 ∷ 2000 ∷ []) ∷ []

refused : (check "a" (some (pos 2)) 60000 3000 full).0 ≡ some 58000
unfolding check recorded lookup insert String-discrete
refused = refl

retry_after-suffices_example :
    (check "a" (some (pos 2)) 60000 61000 (check "a" (some (pos 2)) 60000 3000 full).1).0 ≡ none
unfolding recorded lookup String-discrete
retry_after-suffices_example =
    retry_after-suffices "a" (some (pos 2)) 60000 3000 full refl 61000 58000 (omega arith) refused
      (omega arith)
