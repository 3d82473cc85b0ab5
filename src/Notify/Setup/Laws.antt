-- ===== src/Notify/Setup/Laws.antt =====
-- What `NotificationSender.__init__` takes, and what the models of the channels read.

use mathlib.Core.Option
use auto_heal.Prelude.{
  Bool, Option, Option-cases, String, arith, false, if◌then◌else◌, inl, inr, none, refl, some,
  subst, sym, true, ◌&&◌, ◌∙◌, ◌≡◌,
}
use auto_heal.Value.{
  Fields, Value, arr, bool, cons, dict_at, dict_of, flag_at, get, get_or, nil, null, num, obj, str,
  truthy,
}
use auto_heal.Notify.{both, dedup_enabled, failure_only, is_among, takes}
use auto_heal.Notify.Setup.{
  Sections, Setup, all_sections, chat_setup, dict_or_raise, lenient_section, pager_setup, section,
  sections_of, setup, setup_of,
}

-- What the models of the channels read of a section is what `__init__` took from it.
section-dict_at :
    (k : String) (config f : Fields) → section k config ≡ some f → dict_at k config ≡ f
unfolding section
section-dict_at k config f h = ground (arith)

dict_or_raise-dict_of : (v : Value) (f : Fields) → dict_or_raise v ≡ some f → dict_of v ≡ f
dict_or_raise-dict_of (obj g) f h = cc h
dict_or_raise-dict_of null f h = cc h
dict_or_raise-dict_of (bool true) f h = cc h
dict_or_raise-dict_of (bool false) f h = cc h
dict_or_raise-dict_of (num n) f h = ground (arith)
dict_or_raise-dict_of (str s) f h = ground (arith)
dict_or_raise-dict_of (arr nil) f h = cc h
dict_or_raise-dict_of (arr (cons v vs)) f h = cc h

lenient_section-dict_at :
    (k : String) (config f : Fields) → lenient_section k config ≡ some f → dict_at k config ≡ f
unfolding lenient_section
lenient_section-dict_at k config f h = elim (Option-cases (get k config)) [
  | inl absent ↦ ground (arith, absent)
  | inr (v, there) ↦
      let it : lenient_section k config ≡ dict_or_raise v = rw (there, lenient_section) refl in
      rw (there, get_or) (dict_or_raise-dict_of v f (sym it ∙ h))
]

record AreSections (config : Fields) (c : Sections) : Type 0 where
  slack : dict_at "slack" config ≡ c.slack
  teams : dict_at "teams" config ≡ c.teams
  pagerduty : dict_at "pagerduty" config ≡ c.pagerduty
  opsgenie : dict_at "opsgenie" config ≡ c.opsgenie
  dedup : dict_at "dedup" config ≡ c.dedup

sections_of-AreSections :
    (config : Fields) (c : Sections) → sections_of config ≡ some c → AreSections config c
unfolding sections_of
sections_of-AreSections config c h =
    go (section "slack" config) (section "teams" config) (lenient_section "email" config)
      (lenient_section "pagerduty" config) (lenient_section "opsgenie" config)
      (lenient_section "dedup" config) refl refl refl refl refl h
  where
    go :
        (a b e p o d : Option Fields)
        → section "slack" config ≡ a
        → section "teams" config ≡ b
        → lenient_section "pagerduty" config ≡ p
        → lenient_section "opsgenie" config ≡ o
        → lenient_section "dedup" config ≡ d
        → all_sections a b e p o d ≡ some c
        → AreSections config c
    go none b e p o d ea eb ep eo ed h' = absurd (cc h')
    go (some x) none e p o d ea eb ep eo ed h' = absurd (cc h')
    go (some x) (some y) none p o d ea eb ep eo ed h' = absurd (cc h')
    go (some x) (some y) (some z) none o d ea eb ep eo ed h' = absurd (cc h')
    go (some x) (some y) (some z) (some u) none d ea eb ep eo ed h' = absurd (cc h')
    go (some x) (some y) (some z) (some u) (some v) none ea eb ep eo ed h' = absurd (cc h')
    go (some x) (some y) (some z) (some u) (some v) (some w) ea eb ep eo ed h' = record {
      slack = section-dict_at "slack" config x ea ∙ cc h';
      teams = section-dict_at "teams" config y eb ∙ cc h';
      pagerduty = lenient_section-dict_at "pagerduty" config u ep ∙ cc h';
      opsgenie = lenient_section-dict_at "opsgenie" config v eo ∙ cc h';
      dedup = lenient_section-dict_at "dedup" config w ed ∙ cc h';
    }

-- The test at the head of a channel's method, on what `__init__` kept
abbrev pub is_on : Value → Value → Value → String → Option Bool
is_on enabled address notify_on status =
    if truthy enabled && truthy address then is_among status notify_on else some false

truthy-enabled :
    (f : Fields) → truthy (get_or "enabled" null f) ≡ truthy (get_or "enabled" (bool false) f)
truthy-enabled f = elim (Option-cases (get "enabled" f)) [
  | inl absent ↦ rw (absent, get_or) refl
  | inr (v, there) ↦ rw (there, get_or) refl
]

chat_setup-takes :
    (f : Fields) (status : String)
    → takes f (flag_at "webhook_url" f) both status
      ≡ is_on (chat_setup f).enabled (chat_setup f).url (chat_setup f).notify_on status
chat_setup-takes f status = rw (truthy-enabled f) refl

pager_setup-takes :
    (key f_status : String) (f : Fields)
    → takes f (flag_at key f) failure_only f_status
      ≡ is_on
          (pager_setup key f).enabled
          (pager_setup key f).key
          (pager_setup key f).notify_on
          f_status
pager_setup-takes key status f = rw (truthy-enabled f) refl

abbrev pub Agrees : Fields → Setup → String → Type 0
Agrees config r status =
    (takes (dict_at "slack" config) (flag_at "webhook_url" (dict_at "slack" config)) both status
      ≡ is_on r.slack.enabled r.slack.url r.slack.notify_on status)
    × (takes (dict_at "teams" config) (flag_at "webhook_url" (dict_at "teams" config)) both status
        ≡ is_on r.teams.enabled r.teams.url r.teams.notify_on status)
    × (takes (dict_at "pagerduty" config) (flag_at "routing_key" (dict_at "pagerduty" config))
          failure_only status
        ≡ is_on r.pagerduty.enabled r.pagerduty.key r.pagerduty.notify_on status)
    × (takes (dict_at "opsgenie" config) (flag_at "api_key" (dict_at "opsgenie" config))
          failure_only status
        ≡ is_on r.opsgenie.enabled r.opsgenie.key r.opsgenie.notify_on status)
    × (dedup_enabled config ≡ truthy r.deduplicates)

-- The tests of Slack, Teams, PagerDuty and Opsgenie, and the switch of the deduplication, read from
-- the configuration what `__init__` took from it, where it does not raise.
pub setup-takes :
    (config : Fields) (r : Setup) (status : String) → setup config ≡ some r → Agrees config r status
unfolding setup
setup-takes config r status h = taken (sections_of config) refl h
  where
    taken :
        (o : Option Sections)
        → sections_of config ≡ o
        → Option.map (setup_of config) o ≡ some r
        → Agrees config r status
    taken none e h' = absurd (cc h')
    taken (some c) e h' =
        let same : setup_of config c ≡ r = cc h' in
        let s = sections_of-AreSections config c e in
        subst (λ x. Agrees config x status) same
          (rw (s.slack, s.teams, s.pagerduty, s.opsgenie, s.dedup)
            (
              chat_setup-takes c.slack status,
              chat_setup-takes c.teams status,
              pager_setup-takes "routing_key" status c.pagerduty,
              pager_setup-takes "api_key" status c.opsgenie,
              refl,
            ))
