-- ===== src/Notify.antt =====
-- src/notifications.py: what `NotificationSender` keeps, and severity, deduplication, routing and the
-- message texts. The configuration is the parsed config/notifications.yaml.
pub mod Setup
pub mod Chat
pub mod Email
pub mod Alerts
pub mod Sender
pub mod Tests
use Prim.Native.Char.{Char, code}
use auto_heal.Prelude.{
  Bool, List, Option, String, String-discrete, [], eqb, false, if◌then◌else◌, ltb, none, not, pos,
  pos_part, some, true, ℕ, ℤ, ◌&&◌, ◌*◌, ◌++◌, ◌+◌, ◌==◌, ◌||◌, ◌∷◌,
}
use auto_heal.Dict.{Dict, insert, lookup}
use auto_heal.Value.{
  Fields, Items, Value, arr, as_int, bool, cons, dict_at, flag_at, get, get_or, has, is_filled,
  member, nil, num, obj, str, text_at, text_or_null, truthy,
}
use auto_heal.Vault.Reference.{SecretAnswer, from_vault, no_secret, plain, resolve_vault_ref}
use auto_heal.Executor.Format
use auto_heal.Executor.Format.{Formatted, format, malformed, missing, text}

pub data Channel : Type 0 where
  slack teams email pagerduty opsgenie : Channel

abbrev pub name_of : Channel → String
name_of slack = "slack"
name_of teams = "teams"
name_of email = "email"
name_of pagerduty = "pagerduty"
name_of opsgenie = "opsgenie"

-- One session with the mail server: `starttls`, the credentials of `login`, and the message
pub record Mail : Type 0 where
  pub smtp_host : Value
  pub smtp_port : Value
  pub use_tls : Bool
  pub login : Option (Value × Value)
  pub sender : Value
  pub recipients : Value
  pub subject : String
  pub body : String

-- What goes out: a POST with its JSON and its headers, or a mail
pub data Sent : Type 0 where
  posted : Channel → Value → Fields → Fields → Sent
  mailed : Mail → Sent

-- The outside: the status of a POST after those before it, `none` where it raises; whether a mail
-- is accepted; Vault; `str(v)` of a value that is no text.
pub record Outlet : Type 0 where
  pub post : List Sent → Sent → Option ℕ
  pub smtp : List Sent → Mail → Bool
  pub get_secret : String → SecretAnswer
  pub repr : Value → String

-- The arguments of a channel's method
pub record Message : Type 0 where
  pub action : String
  pub controller : String
  pub user : String
  pub status : String
  pub details : Option String
  pub severity : Option String

-- A method's result, or an exception that it lets through
pub data Outcome : Type 0 where
  sent : Bool → Outcome
  raised : Outcome

-- `SEVERITY_RANK`
unfoldable pub severity_rank : String → Option ℕ
severity_rank s =
    if s == "info"
    then some 0
    else if s == "warning"
    then some 1
    else if s == "critical"
    then some 2
    else none

-- `base_severity if base_severity in SEVERITY_RANK else "info"`, with its rank
abbrev pub ranked : String → Option ℕ → String × ℕ
ranked s none = ("info", 0)
ranked s (some rank) = (s, rank)

abbrev pub base_of : Option String → String × ℕ
base_of none = ("info", 0)
base_of (some s) = ranked s (severity_rank s)

-- `_effective_severity`
unfoldable pub effective_severity : Option String → String → String
unfolding String-discrete severity_rank
effective_severity base_severity status =
    let base = base_of base_severity in
    if status == "failure" && ltb base.1 1 then "warning" else base.0

abbrev pub default_dedup_window : ℤ
default_dedup_window = pos 300

-- `dedup_cfg.get("enabled", True)`
abbrev pub dedup_enabled : Fields → Bool
dedup_enabled config = truthy (get_or "enabled" (bool true) (dict_at "dedup" config))

-- `dedup_cfg.get("window_seconds", DEFAULT_DEDUP_WINDOW_SECONDS)`; a negative one reads as 0, and
-- what is no number is `none`.
abbrev pub dedup_window_ms : Fields → Option ℕ
dedup_window_ms config =
    elim (as_int (get_or "window_seconds" (num default_dedup_window) (dict_at "dedup" config))) [
      | none ↦ none
      | some seconds ↦ some (pos_part seconds * 1000)
    ]

-- `last_sent is not None and now - last_sent < self.dedup_window_seconds`; `none` where it raises
abbrev is_recent : ℕ → Option ℕ → Option ℕ → Option Bool
is_recent now window none = some false
is_recent now none (some last_sent) = none
is_recent now (some window) (some last_sent) = some (ltb now (last_sent + window))

abbrev or_insert : String → ℕ → Dict ℕ → Option Bool → Option Bool × Dict ℕ
or_insert key now seen none = (none, seen)
or_insert key now seen (some true) = (some true, seen)
or_insert key now seen (some false) = (some false, insert key now seen)

-- `_is_duplicate`, at the time `now`; `none` where it raises
unfoldable pub is_duplicate : Fields → String → ℕ → Dict ℕ → Option Bool × Dict ℕ
unfolding lookup insert
is_duplicate config key now seen =
    if not (dedup_enabled config)
    then (some false, seen)
    else or_insert key now seen (is_recent now (dedup_window_ms config) (lookup key seen))

abbrev starts_with : String → String → Bool
starts_with String.[] s = true
starts_with (String.◌∷◌ c p) String.[] = false
starts_with (String.◌∷◌ c p) (String.◌∷◌ d s) =
    let rest = starts_with p s in eqb (code c) (code d) && rest

unfoldable pub occurs_in : String → String → Bool
occurs_in p String.[] = starts_with p ""
occurs_in p (String.◌∷◌ c s) = let rest = occurs_in p s in starts_with p (String.◌∷◌ c s) || rest

-- `x in v`; `none` where `v` is nothing to look into, which raises a TypeError
abbrev pub is_among : String → Value → Option Bool
is_among x (arr vs) = some (member x vs)
is_among x (obj f) = some (has x f)
is_among x (str s) = some (occurs_in x s)
is_among x _ = none

-- `_wants_channel`
unfoldable pub wants_channel : Fields → Channel → String → Option Bool
unfolding get
wants_channel config channel severity =
    let routing = dict_at "routing" config in
    if not (is_filled routing)
    then some true
    else is_among (name_of channel) (get_or severity (arr nil) routing)

-- `d.get(k) or e` on texts
abbrev filled_at : String → Fields → Option String
filled_at k f = elim (text_at k f) [ none ↦ none | some s ↦ if s == "" then none else some s ]

abbrev pub or_else : Option String → Option String → Option String
or_else none o = o
or_else (some s) o = some s

-- `_render`: the text, or the ValueError of a template that is no template, which is not caught
pub data Text : Type 0 where
  text_is : String → Text
  bad_template : Text

abbrev pub or_default : String → Formatted → Text
or_default default_text (Formatted.text t) = text_is t
or_default default_text (Formatted.missing key) = text_is default_text
or_default default_text Formatted.malformed = bad_template

unfoldable pub render : Fields → Channel → String → Dict String → Text
unfolding get
render config channel default_text fields =
    let templates = dict_at "templates" config in
    elim (or_else (filled_at (name_of channel) templates) (filled_at "default" templates)) [
      | none ↦ text_is default_text
      | some template ↦ or_default default_text (Format.format template fields)
    ]

abbrev pub or_empty : Option String → String
or_empty none = ""
or_empty (some s) = s

-- `details` if it is not empty
abbrev pub filled : Option String → Option String
filled none = none
filled (some s) = if s == "" then none else some s

-- The fields of every template
abbrev pub template_fields : Message → String → Dict String
template_fields m severity =
    ("action", m.action)
    ∷ ("controller", m.controller)
    ∷ ("user", m.user)
    ∷ ("status", m.status)
    ∷ ("severity", severity)
    ∷ ("details", or_empty m.details)
    ∷ []

-- `status in notify_on`, with the default of the channel; `none` where it raises
abbrev pub is_notified_on : Fields → Items → String → Option Bool
is_notified_on cfg default_on status = is_among status (get_or "notify_on" (arr default_on) cfg)

abbrev pub both : Items
both = cons (str "success") (cons (str "failure") nil)

abbrev pub failure_only : Items
failure_only = cons (str "failure") nil

-- The capital beside a small letter in the two alphabets, or the character itself
unfoldable pub upper_char : String → String → Char → Char
upper_char String.[] capitals c = c
upper_char (String.◌∷◌ a small) String.[] c = c
upper_char (String.◌∷◌ a small) (String.◌∷◌ b capitals) c =
    let rest = upper_char small capitals c in if eqb (code a) (code c) then b else rest

-- `status.upper()`, of ASCII letters
unfoldable pub upper : String → String
unfolding upper_char
upper String.[] = ""
upper (String.◌∷◌ c s) =
    String.◌∷◌ (upper_char "abcdefghijklmnopqrstuvwxyz" "ABCDEFGHIJKLMNOPQRSTUVWXYZ" c) (upper s)

abbrev pub severity_or_info : Message → String
severity_or_info m = elim (filled m.severity) [ none ↦ "info" | some s ↦ s ]

-- The tests at the head of a channel's method: it is on, its addresses are there, and the status is
-- one that it is told of; `none` where the last one raises.
abbrev pub takes : Fields → Bool → Items → String → Option Bool
takes cfg has_address default_on status =
    if flag_at "enabled" cfg && has_address
    then is_notified_on cfg default_on status
    else some false

-- The rest of the method, where the tests let it through
abbrev pub if_taken : Option Bool → List Sent → Outcome × List Sent → Outcome × List Sent
if_taken none log rest = (raised, log)
if_taken (some false) log rest = (sent false, log)
if_taken (some true) log rest = rest

-- What follows a rendered text
abbrev pub with_text : Text → (String → Outcome × List Sent) → List Sent → Outcome × List Sent
with_text bad_template k log = (raised, log)
with_text (text_is t) k log = k t

-- `requests.post`, and the test of the answer's status
abbrev pub post : Outlet → (ℕ → Bool) → Sent → List Sent → Outcome × List Sent
post o is_accepted s log = elim (o.post log s) [
  | none ↦ (sent false, log ++ s ∷ [])
  | some status ↦ (sent (is_accepted status), log ++ s ∷ [])
]

-- `resolve_vault_ref(value)`, and what follows it or its error
abbrev pub with_secret :
    Outlet → Option String → (Value → Outcome × List Sent) → List Sent → Outcome × List Sent
with_secret o value k log = elim (resolve_vault_ref o.get_secret value none) [
  | no_secret e ↦ (sent false, log)
  | plain v ↦ k (text_or_null v)
  | from_vault v ↦ k v
]
