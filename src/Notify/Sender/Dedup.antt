-- ===== src/Notify/Sender/Dedup.antt =====
-- Severity, and what deduplication holds back.
use auto_heal.Prelude.{
  All, Bool, Bool-cases, List, Option, String, String-discrete, [], arith, false, if◌then◌else◌,
  inl, inr, ltb, none, refl, some, true, ℕ, ◌&&◌, ◌+◌, ◌<◌, ◌==◌, ◌∙◌, ◌∷◌, ◌≡◌, ◌≢◌, ◌≤◌,
}
use auto_heal.Dict.{Dict, lookup, lookup-insert}
use auto_heal.Value.{Fields}
use auto_heal.Notify.{
  Message, Outlet, Sent, base_of, dedup_enabled, dedup_window_ms, effective_severity, is_duplicate,
  ranked, severity_rank,
}
use auto_heal.Notify.Sender.{Sender, after_dedup, dedup_key_of, notify, results}

after_dedup-seen :
    (config : Fields) (o : Outlet) (m : Message) (log : List Sent) (duplicate : Option Bool)
    (seen : Dict ℕ)
    → (after_dedup config o m log (duplicate, seen)).1.seen ≡ seen
after_dedup-seen config o m log none seen = refl
after_dedup-seen config o m log (some true) seen = refl
after_dedup-seen config o m log (some false) seen = refl

-- What the sender knows of the keys after a notification
seen-notify :
    (config : Fields) (o : Outlet) (m : Message) (dedup_key : Option String) (now : ℕ) (s : Sender)
    → (notify config o m dedup_key now s).1.seen
      ≡ (is_duplicate config (dedup_key_of dedup_key m) now s.seen).1
unfolding notify
seen-notify config o m dedup_key now s =
    let r = is_duplicate config (dedup_key_of dedup_key m) now s.seen in
    after_dedup-seen config o m s.log r.0 r.1

-- One call of `notify`: what it is given, and when
pub record Call : Type 0 where
  pub outlet : Outlet
  pub message : Message
  pub dedup_key : Option String
  pub at : ℕ

-- The calls one after the other
unfoldable pub notify_all : Fields → List Call → Sender → Sender
unfolding notify
notify_all config [] s = s
notify_all config (c ∷ calls) s =
    notify_all config calls (notify config c.outlet c.message c.dedup_key c.at s).1

module _ (config : Fields) (window : ℕ) (enabled : dedup_enabled config ≡ true)
    (timed : dedup_window_ms config ≡ some window) where
  is_duplicate-first :
      (key : String) (now : ℕ) (seen : Dict ℕ)
      → (is_duplicate config key now seen).0 ≡ some false
      → lookup key (is_duplicate config key now seen).1 ≡ some now
  unfolding is_duplicate
  is_duplicate-first key now seen h = ground (arith, timed, lookup-insert key key now seen)

  is_duplicate-within :
      (key : String) (start later : ℕ) (seen : Dict ℕ)
      → lookup key seen ≡ some start
      → later < start + window
      → is_duplicate config key later seen ≡ (some true, seen)
  unfolding is_duplicate
  is_duplicate-within key start later seen known within =
      rw (enabled, timed, known, is_duplicate)
        (let early : ltb later (start + window) ≡ true = ground arith in rw early refl)

  is_duplicate-other :
      (key other : String) (later : ℕ) (seen : Dict ℕ)
      → other ≢ key
      → lookup key (is_duplicate config other later seen).1 ≡ lookup key seen
  unfolding is_duplicate
  is_duplicate-other key other later seen differ =
      ground (arith, lookup-insert other key later seen)

  -- Within the window no notification changes what is known of the key.
  is_duplicate-keeps :
      (key other : String) (start later : ℕ) (seen : Dict ℕ)
      → lookup key seen ≡ some start
      → later < start + window
      → lookup key (is_duplicate config other later seen).1 ≡ some start
  is_duplicate-keeps key other start later seen known within = elim (String-discrete other key) [
    | yes same ↦ rw same (rw (is_duplicate-within key start later seen known within) known)
    | no differ ↦ is_duplicate-other key other later seen differ ∙ known
  ]

  lookup-notify_all :
      (key : String) (start : ℕ) (calls : List Call) (s : Sender)
      → lookup key s.seen ≡ some start
      → All (λ c. c.at < start + window) calls
      → lookup key (notify_all config calls s).seen ≡ some start
  unfolding notify_all
  lookup-notify_all key start [] s known within = known
  lookup-notify_all key start (c ∷ calls) s known within =
      lookup-notify_all key start calls (notify config c.outlet c.message c.dedup_key c.at s).1
        (rw (seen-notify config c.outlet c.message c.dedup_key c.at s) (
          is_duplicate-keeps key (dedup_key_of c.dedup_key c.message) start c.at s.seen known
            within.0))
        within.1

  notify_duplicate :
      (o : Outlet) (m : Message) (k : Option String) (start now : ℕ) (s : Sender)
      → lookup (dedup_key_of k m) s.seen ≡ some start
      → now < start + window
      → notify config o m k now s ≡ (results [], s)
  unfolding notify
  notify_duplicate o m k start now s known within =
      rw (is_duplicate-within (dedup_key_of k m) start now s.seen known within) refl

  -- While deduplication is on with a window that is a number, a notification that was not held back
  -- holds back each one with its key that comes within the window, whatever it says and whatever
  -- notifications under any keys came in between: it sends nothing and changes nothing.
  pub notify-notify_all :
      (o o' : Outlet) (m m' : Message) (k k' : Option String) (now later : ℕ) (calls : List Call)
      (s : Sender)
      → dedup_key_of k' m' ≡ dedup_key_of k m
      → (is_duplicate config (dedup_key_of k m) now s.seen).0 ≡ some false
      → All (λ c. c.at < now + window) calls
      → later < now + window
      → notify config o' m' k' later (notify_all config calls (notify config o m k now s).1)
        ≡ (results [], notify_all config calls (notify config o m k now s).1)
  notify-notify_all o o' m m' k k' now later calls s same first between within =
      let s' = (notify config o m k now s).1 in
      let known : lookup (dedup_key_of k m) s'.seen ≡ some now =
        rw (seen-notify config o m k now s)
          (is_duplicate-first (dedup_key_of k m) now s.seen first) in
      notify_duplicate o' m' k' now later (notify_all config calls s')
        (rw same (lookup-notify_all (dedup_key_of k m) now calls s' known between)) within

abbrev rank_or_zero : Option ℕ → ℕ
rank_or_zero none = 0
rank_or_zero (some rank) = rank

-- The rank of a severity, 0 for what is none
abbrev pub rank_of : String → ℕ
rank_of s = rank_or_zero (severity_rank s)

abbrev pub declared_rank : Option String → ℕ
declared_rank none = 0
declared_rank (some s) = rank_of s

ranked-ranked :
    (s : String) (o : Option ℕ)
    → severity_rank s ≡ o
    → (severity_rank (ranked s o).0 ≡ some (ranked s o).1) × ((ranked s o).1 ≡ rank_or_zero o)
unfolding severity_rank String-discrete
ranked-ranked s none e = (refl, refl)
ranked-ranked s (some rank) e = (e, refl)

base_of-ranked :
    (base : Option String)
    → (severity_rank (base_of base).0 ≡ some (base_of base).1)
      × ((base_of base).1 ≡ declared_rank base)
unfolding severity_rank String-discrete
base_of-ranked none = (refl, refl)
base_of-ranked (some s) = ranked-ranked s (severity_rank s) refl

warning_rank : severity_rank "warning" ≡ some 1
unfolding severity_rank String-discrete
warning_rank = refl

-- A failure is at least a warning.
abbrev pub least_rank : String → ℕ
least_rank status = if status == "failure" then 1 else 0

-- The effective severity is one of the three; it is not below the one that the action declares, and
-- a failure is at least a warning.
pub effective_severity_bounds :
    (base : Option String) (status : String)
    → (severity_rank (effective_severity base status) ≢ none)
      × (declared_rank base ≤ rank_of (effective_severity base status))
      × (least_rank status ≤ rank_of (effective_severity base status))
unfolding effective_severity
effective_severity_bounds base status =
    let known = base_of-ranked base in
    elim (Bool-cases (status == "failure" && ltb (base_of base).1 1)) [
      | inl lifted ↦
          rw (lifted, effective_severity)
            (rw warning_rank ((λ e. cc e), ground arith, ground arith))
      | inr kept ↦
          rw (kept, effective_severity) (rw known.0 ((λ e. cc e), ground arith, ground arith))
    ]
