-- ===== src/Notify/Setup.antt =====
-- `NotificationSender.__init__` of src/notifications.py: the settings it takes from its
-- configuration. The channels' models read them from the configuration itself.
pub mod Laws
use mathlib.Core.Option
use auto_heal.Prelude.{Option, String, false, if◌then◌else◌, map, none, pos, some, true}
use auto_heal.Value.{Fields, Value, arr, bool, end, get, get_or, nil, null, num, obj, str, truthy}
use auto_heal.Notify.{both, failure_only}

-- `config.get(k, {})`, on which `get` is called: `none` where it is no dict, which raises
unfoldable pub section : String → Fields → Option Fields
section k config = elim (get k config) [ none ↦ some end | some (obj f) ↦ some f | some v ↦ none ]

-- `v or {}`, on which `get` is called
abbrev pub dict_or_raise : Value → Option Fields
dict_or_raise (obj f) = some f
dict_or_raise v = if truthy v then none else some end

-- `config.get(k, {}) or {}`
unfoldable pub lenient_section : String → Fields → Option Fields
lenient_section k config = elim (get k config) [ none ↦ some end | some v ↦ dict_or_raise v ]

-- What a chat channel is set up with
pub record ChatSetup : Type 0 where
  pub enabled : Value
  pub url : Value
  pub channel : Value
  pub notify_on : Value

pub record EmailSetup : Type 0 where
  pub enabled : Value
  pub smtp_host : Value
  pub smtp_port : Value
  pub use_tls : Value
  pub username : Value
  pub password : Value
  pub from_addr : Value
  pub to_addrs : Value
  pub notify_on : Value

-- PagerDuty's routing key or Opsgenie's API key
pub record PagerSetup : Type 0 where
  pub enabled : Value
  pub key : Value
  pub notify_on : Value

pub record Setup : Type 0 where
  pub slack : ChatSetup
  pub slack_username : Value
  pub teams : ChatSetup
  pub email : EmailSetup
  pub pagerduty : PagerSetup
  pub opsgenie : PagerSetup
  pub routing : Value
  pub deduplicates : Value
  pub dedup_window_seconds : Value
  pub templates : Value

-- `v or d`
abbrev or_value : Value → Value → Value
or_value v d = if truthy v then v else d

abbrev pub chat_setup : Fields → ChatSetup
chat_setup f = record {
  enabled = get_or "enabled" (bool false) f;
  url = get_or "webhook_url" null f;
  channel = get_or "channel" null f;
  notify_on = get_or "notify_on" (arr both) f;
}

abbrev pub email_setup : Fields → EmailSetup
email_setup f = record {
  enabled = get_or "enabled" (bool false) f;
  smtp_host = get_or "smtp_host" null f;
  smtp_port = get_or "smtp_port" (num (pos 587)) f;
  use_tls = get_or "use_tls" (bool true) f;
  username = get_or "username" null f;
  password = get_or "password" null f;
  from_addr = get_or "from_addr" null f;
  to_addrs = or_value (get_or "to_addrs" null f) (arr nil);
  notify_on = get_or "notify_on" (arr both) f;
}

abbrev pub pager_setup : String → Fields → PagerSetup
pager_setup key_name f = record {
  enabled = get_or "enabled" (bool false) f;
  key = get_or key_name null f;
  notify_on = get_or "notify_on" (arr failure_only) f;
}

infixl 5 ◌>>=◌
abbrev pub ◌>>=◌ : {A B : Type 0} → Option A → (A → Option B) → Option B
o >>= k = elim o [ none ↦ none | some x ↦ k x ]

-- The six sections that `get` is called on
pub record Sections : Type 0 where
  pub slack : Fields
  pub teams : Fields
  pub email : Fields
  pub pagerduty : Fields
  pub opsgenie : Fields
  pub dedup : Fields

abbrev pub setup_of : Fields → Sections → Setup
setup_of config c = record {
  slack = chat_setup c.slack;
  slack_username = get_or "username" (str "AutoHealerBot") c.slack;
  teams = chat_setup c.teams;
  email = email_setup c.email;
  pagerduty = pager_setup "routing_key" c.pagerduty;
  opsgenie = pager_setup "api_key" c.opsgenie;
  routing = or_value (get_or "routing" null config) (obj end);
  deduplicates = get_or "enabled" (bool true) c.dedup;
  dedup_window_seconds = get_or "window_seconds" (num (pos 300)) c.dedup;
  templates = or_value (get_or "templates" null config) (obj end);
}

-- The sections, where all of them are there
abbrev pub all_sections :
    Option Fields
    → Option Fields
    → Option Fields
    → Option Fields
    → Option Fields
    → Option Fields
    → Option Sections
all_sections slack teams email pagerduty opsgenie dedup = do
  slack' ← slack
  teams' ← teams
  email' ← email
  pagerduty' ← pagerduty
  opsgenie' ← opsgenie
  dedup' ← dedup
  some (record {
    slack = slack';
    teams = teams';
    email = email';
    pagerduty = pagerduty';
    opsgenie = opsgenie';
    dedup = dedup';
  })

unfoldable pub sections_of : Fields → Option Sections
unfolding section lenient_section
sections_of config =
    all_sections (section "slack" config) (section "teams" config) (lenient_section "email" config)
      (lenient_section "pagerduty" config) (lenient_section "opsgenie" config)
      (lenient_section "dedup" config)

-- `__init__`; `none` where a section that `get` is called on is no dict
unfoldable pub setup : Fields → Option Setup
unfolding sections_of
setup config = Option.map (setup_of config) (sections_of config)
