-- ===== src/Service/Query.antt =====
-- `filter_audit_entry`, `get_audit`, `get_audit_verify` and `can_override_controller` of
-- src/main.py. The log is the list of its lines, the newest first.
pub mod Laws
mod Tests
use mathlib.Core.Option
use auto_heal.Prelude.{
  Bool, List, Option, String, [], eqb, false, if◌then◌else◌, leb, ltb, map, none, not, pos_part,
  some, suc, true, ℕ, ℤ, ◌&&◌, ◌==◌, ◌||◌, ◌∷◌,
}
use auto_heal.Value.{Fields, Value, bool, end, field, get_or, null, str, text_or_null, truthy}
use auto_heal.Auth.{get_role_from_api_key, has_permission}
use auto_heal.Audit.{Check, Line, blank, entry, no_object, not_json, verify_chain}
use auto_heal.Service.State.{Env, Response, reply}
use auto_heal.Service.Webhook.{is_given}
use Prim.Native.Char.{Char, code}

-- `AuditQueryParams`
pub record Query : Type 0 where
  pub start : Option String
  pub end_at : Option String
  pub action : Option String
  pub user : Option String
  pub role : Option String
  pub controller : Option String
  pub limit : ℤ

-- `s < t` on texts: the order of the characters' codes
unfoldable pub text_ltb : String → String → Bool
text_ltb s String.[] = false
text_ltb String.[] (String.◌∷◌ d t) = true
text_ltb (String.◌∷◌ c s) (String.◌∷◌ d t) =
    let rest = text_ltb s t in if eqb (code c) (code d) then rest else ltb (code c) (code d)

abbrev before : String → Option String → Bool
before t none = false
before t (some bound) = if bound == "" then false else text_ltb t bound

abbrev beyond : String → Option String → Bool
beyond t none = false
beyond t (some bound) = if bound == "" then false else text_ltb bound t

-- The date filter, which compares texts. It lets an entry through whose timestamp is missing or empty, and raises
-- where the timestamp is no text.
abbrev in_period : Query → Value → Option Bool
in_period q (str t) =
    if t == "" then some true else some (not (before t q.start) && not (beyond t q.end_at))
in_period q ts = if truthy ts then none else some true

-- `params.k and entry.get(k) != params.k`, negated
abbrev agrees : Option String → Value → Bool
agrees none v = true
agrees (some wanted) (str s) = if wanted == "" then true else s == wanted
agrees (some wanted) v = wanted == ""

-- `filter_audit_entry`; `none` where it raises
unfoldable pub filter_audit_entry : Query → Fields → Option Bool
unfolding text_ltb
filter_audit_entry q f =
    let period =
      if is_given q.start || is_given q.end_at
      then in_period q (get_or "timestamp" null f)
      else some true in
    Option.map
      (λ b.
        b
        && agrees q.action (get_or "action" null f)
        && agrees q.user (get_or "user" null f)
        && agrees q.role (get_or "role" null f)
        && agrees q.controller (get_or "controller" null f))
      period

-- No filter looks into the entry.
abbrev asks_nothing : Query → Bool
asks_nothing q =
    not (is_given q.start)
    && not (is_given q.end_at)
    && not (is_given q.action)
    && not (is_given q.user)
    && not (is_given q.role)
    && not (is_given q.controller)

-- The `try` of the loop: what raises is passed over. JSON that is no object raises in every filter.
abbrev pub is_wanted : Query → Line → Bool
is_wanted q blank = false
is_wanted q not_json = false
is_wanted q no_object = asks_nothing q
is_wanted q (entry f) = elim (filter_audit_entry q f) [ none ↦ false | some b ↦ b ]

-- The loop, with the number of the results so far; the limit is tested after a result is added.
unfoldable pub collect : ℕ → Query → ℕ → List Line → List Line
unfolding filter_audit_entry
collect limit q found [] = []
collect limit q found (l ∷ older) =
    let added = collect limit q (suc found) older in
    let passed = collect limit q found older in
    if is_wanted q l then l ∷ (if leb limit (suc found) then [] else added) else passed

-- `get_audit`; the outer `none` is the 403, and a log that does not exist gives no results.
unfoldable pub get_audit : Env → String → Query → Option (List Line) → Option (List Line)
unfolding collect
get_audit env api_key q log =
    if not (has_permission env.source (get_role_from_api_key env.source api_key) "audit_read")
    then none
    else elim log [ none ↦ some [] | some lines ↦ some (collect (pos_part q.limit) q 0 lines) ]

-- `get_audit_verify`
unfoldable pub get_audit_verify : (Fields → String) → Env → String → List Line → Option Check
get_audit_verify hash_entry env api_key log =
    if not (has_permission env.source (get_role_from_api_key env.source api_key) "audit_read")
    then none
    else some (verify_chain hash_entry log)

-- `can_override_controller`
unfoldable pub can_override_controller : Env → String → Response
can_override_controller env api_key =
    let role = get_role_from_api_key env.source api_key in
    if has_permission env.source role "controller_override"
    then reply 200 (field "allowed" (bool true) (field "role" (text_or_null role) end))
    else reply 403 (
        field "allowed" (bool false)
          (field "role" (text_or_null role) (field "detail" (str "Forbidden") end)))
