-- ===== src/Notify/Sender/Templates.antt =====
-- What `notify` returns when the templates are well formed.
use auto_heal.Prelude.{Bool, List, String, [], map, none, some, true, ◌∷◌, ◌≡◌, ◌≢◌}
use auto_heal.Dict.{Dict}
use auto_heal.Value.{Fields}
use auto_heal.Notify.{Channel, bad_template, is_notified_on, render, wants_channel}
use auto_heal.Notify.Sender.{Results, Sender, results}
use auto_heal.Notify.Sender.Rules.{cfg_of, default_on}

-- No template raises a ValueError, whatever the fields: the text is always rendered.
abbrev pub Renders : Fields → Type 0
Renders config =
    (c : Channel) (default_text : String) (fields : Dict String)
    → render config c default_text fields ≢ bad_template

-- Every list of the configuration is something to look into: `routing` at this severity, and the
-- `notify_on` of each channel.
abbrev pub Lists : Fields → String → String → Type 0
Lists config severity status =
    ((c : Channel) → wants_channel config c severity ≢ none)
    × ((c : Channel) → is_notified_on (cfg_of config c) (default_on c) status ≢ none)

-- The channels that the severity is routed to, in the order of `notify`
unfoldable pub routed : Fields → String → List Channel → List Channel
unfolding wants_channel
routed config severity [] = []
routed config severity (c ∷ cs) =
    let rest = routed config severity cs in
    elim (wants_channel config c severity) [ some true ↦ c ∷ rest | _ ↦ rest ]

-- These channels were tried, each with a result.
abbrev pub Tried : List Channel → Results → Type 0
Tried cs r = (rs : List (Channel × Bool)) × (r ≡ results rs) × (map (λ x. x.0) rs ≡ cs)
