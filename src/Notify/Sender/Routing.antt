-- ===== src/Notify/Sender/Routing.antt =====
-- Where a notification goes.

use auto_heal.Prelude.{
  Bool, GrowsBy, GrowsBy-trans, List, Option, String, [], append-nil, arith, false, length, none,
  refl, some, suc, sym, true, ℕ, ◌∙◌, ◌∷◌, ◌≡◌,
}
use auto_heal.Dict.{Dict}
use auto_heal.Value.{Fields}
use auto_heal.Notify.{
  Channel, Message, Outcome, Outlet, Sent, effective_severity, is_duplicate, raised, sent,
  wants_channel,
}
use auto_heal.Notify.Sender.{
  Results, Sender, add_result, after_dedup, and_then, channels, dedup_key_of, fan_out, if_wanted,
  notify, results, send_by, stopped, with_severity,
}
use auto_heal.Notify.Sender.Rules.{Listens, channel_of, send_by_rule}

-- The channel listens, and the severity is routed to it.
abbrev pub IsAllowed : Fields → String → String → Sent → Type 0
IsAllowed config severity status s =
    (wants_channel config (channel_of s) severity ≡ some true)
    × Listens config (channel_of s) status

send_by-GrowsBy :
    (c : Channel) (config : Fields) (o : Outlet) (severity : String) (m : Message) (log : List Sent)
    → wants_channel config c severity ≡ some true
    → GrowsBy (IsAllowed config severity m.status) 1 log (send_by c config o m log).1
send_by-GrowsBy c config o severity m log wanted =
    let none_sent : GrowsBy (IsAllowed config severity m.status) 1 log log =
      ([], sym (append-nil log), tt, omega arith) in
    send_by_rule (λ r. GrowsBy (IsAllowed config severity m.status) 1 log r.1) log c config o m
      none_sent (λ e. none_sent) (λ d default_text fields e. none_sent)
      (λ s b to listens. (s ∷ [], refl, (rw to (wanted, listens), tt), omega arith))

add_result-log : (c : Channel) (b : Bool) (r : Results × List Sent) → (add_result c b r).1 ≡ r.1
add_result-log c b (results rs, log) = refl
add_result-log c b (stopped, log) = refl

and_then-GrowsBy :
    (P : Sent → Type 0) (n : ℕ) (c : Channel) (log : List Sent) (r : Outcome × List Sent)
    (rest : List Sent → Results × List Sent)
    → GrowsBy P 1 log r.1
    → ((l : List Sent) → GrowsBy P n l (rest l).1)
    → GrowsBy P (suc n) log (and_then c r rest).1
and_then-GrowsBy P n c log (raised, l) rest (new, e, ok, short) h = (new, e, ok, omega arith)
and_then-GrowsBy P n c log (sent b, l) rest g h =
    let (new, e, ok, short) = GrowsBy-trans P 1 n log l (rest l).1 g (h l) in
    (new, add_result-log c b (rest l) ∙ e, ok, omega arith)

fan_out-GrowsBy :
    (cs : List Channel) (config : Fields) (o : Outlet) (severity : String) (m : Message)
    (log : List Sent)
    → GrowsBy
        (IsAllowed config severity m.status)
        (length cs)
        log
        (fan_out cs config o severity m log).1
unfolding fan_out
fan_out-GrowsBy [] config o severity m log = ([], sym (append-nil log), tt, omega arith)
fan_out-GrowsBy (c ∷ cs) config o severity m log =
    go (wants_channel config c severity) refl (λ l. fan_out-GrowsBy cs config o severity m l)
  where
    go :
        (w : Option Bool)
        → wants_channel config c severity ≡ w
        → ((l : List Sent)
            → GrowsBy
                (IsAllowed config severity m.status)
                (length cs)
                l
                (fan_out cs config o severity m l).1)
        → GrowsBy
            (IsAllowed config severity m.status)
            (suc (length cs))
            log
            (if_wanted w log
              (fan_out cs config o severity m)
              (and_then c (send_by c config o m log) (fan_out cs config o severity m))).1
    go none e rest = ([], sym (append-nil log), tt, omega arith)
    go (some false) e rest = let (new, grown, ok, short) = rest log in (new, grown, ok, omega arith)
    go (some true) wanted rest =
        and_then-GrowsBy (IsAllowed config severity m.status) (length cs) c log
          (send_by c config o m log) (fan_out cs config o severity m)
          (send_by-GrowsBy c config o severity m log wanted) rest

after_dedup-GrowsBy :
    (config : Fields) (o : Outlet) (m : Message) (log : List Sent) (duplicate : Option Bool)
    (seen : Dict ℕ)
    → GrowsBy
        (IsAllowed config (effective_severity m.severity m.status) m.status)
        5
        log
        (after_dedup config o m log (duplicate, seen)).1.log
after_dedup-GrowsBy config o m log none seen = ([], sym (append-nil log), tt, omega arith)
after_dedup-GrowsBy config o m log (some true) seen = ([], sym (append-nil log), tt, omega arith)
after_dedup-GrowsBy config o m log (some false) seen =
    fan_out-GrowsBy channels config o (effective_severity m.severity m.status) (with_severity m) log

-- A notification sends at most five messages, and each to a channel that
-- is enabled, is told of the status, and has the effective severity routed to it.
pub notify-GrowsBy :
    (config : Fields) (o : Outlet) (m : Message) (dedup_key : Option String) (now : ℕ) (s : Sender)
    → GrowsBy
        (IsAllowed config (effective_severity m.severity m.status) m.status)
        5
        s.log
        (notify config o m dedup_key now s).1.log
unfolding notify
notify-GrowsBy config o m dedup_key now s =
    let r = is_duplicate config (dedup_key_of dedup_key m) now s.seen in
    after_dedup-GrowsBy config o m s.log r.0 r.1
