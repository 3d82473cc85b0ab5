-- ===== src/RateLimit.antt =====
-- src/ratelimit.py: the sliding-window limiter of /webhook. Times are in milliseconds, so the
-- floor of 0.1 s on a retry hint is 100. The lock makes `check` atomic: it is one function.
pub mod Deque
pub mod Window
pub mod Traffic
pub mod Retry
mod Tests
use auto_heal.Prelude.{
  Bool, List, Option, String, [], false, if◌then◌else◌, is_positive, leb, length, max, none, pos,
  pos_part, some, ℕ, ℤ, ◌*◌, ◌++◌, ◌+◌, ◌-◌, ◌==◌, ◌∷◌,
}
use auto_heal.Dict.{insert}
use auto_heal.Value.{Fields, Value, as_int, dict_at, get_or, has, null, num}
use auto_heal.RateLimit.Deque.{Hits, expire, recorded}

abbrev pub default_requests_per_minute : ℤ
default_requests_per_minute = pos 60

abbrev pub window_ms : ℕ
window_ms = 60 * 1000

-- `entry.get("requests_per_minute", DEFAULT_REQUESTS_PER_MINUTE)`
abbrev rate_of : Fields → Option ℤ
rate_of entry = as_int (get_or "requests_per_minute" (num default_requests_per_minute) entry)

-- `limit_for_role`
unfoldable pub limit_for_role : Fields → Option String → Option ℤ
limit_for_role config none = rate_of (dict_at "default" config)
limit_for_role config (some role) =
    let per_role = dict_at "per_role" config in
    if role == ""
    then rate_of (dict_at "default" config)
    else if has role per_role
    then rate_of (dict_at role per_role)
    else rate_of (dict_at "default" config)

-- `limit_for_action`: `none` is a missing limit
unfoldable pub limit_for_action : Fields → String → Option ℤ
limit_for_action config event_type =
    as_int
      (get_or "requests_per_minute" Value.null (dict_at event_type (dict_at "per_action" config)))

-- `retry_after`, from the oldest hit that is left
abbrev pub retry_after : List ℕ → ℕ → ℕ → ℕ
retry_after [] window now = 0
retry_after (t ∷ ts) window now = max (t + window - now) 100

-- the test and the record on one deque: the hint, or `none` where the call goes through
unfoldable pub admit : ℕ → ℕ → ℕ → List ℕ → Option ℕ × List ℕ
unfolding expire
admit limit window now ts =
    let left = expire now window ts in
    if leb limit (length left)
    then (some (retry_after left window now), left)
    else (none, left ++ now ∷ [])

abbrev pub is_limited : Option ℤ → Bool
is_limited none = false
is_limited (some limit) = is_positive limit

abbrev pub capacity : Option ℤ → ℕ
capacity none = 0
capacity (some limit) = pos_part limit

-- `check`, at the time `now`
unfoldable pub check : String → Option ℤ → ℕ → ℕ → Hits → Option ℕ × Hits
unfolding admit
check key limit window now hits =
    if is_limited limit
    then (let (hint, left) = admit (capacity limit) window now (recorded key hits) in
        (hint, insert key left hits))
    else (none, hits)
