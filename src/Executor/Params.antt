-- ===== src/Executor/Params.antt =====
-- The parameters of an action as texts, and templates over them.
use auto_heal.Prelude.{Bool, List, String, [], eqb, if◌then◌else◌, leb, ◌&&◌, ◌==◌, ◌||◌, ◌∷◌}
use Prim.Native.Char.{Char, code}
use auto_heal.Dict.{Dict}
use auto_heal.Value.{Fields, Value, end, field, str}
use auto_heal.Executor.Outside.{World}
use auto_heal.Executor.Format.{Formatted, format, malformed}

-- `str(v)`
abbrev pub text_of : World → Value → String
text_of w (str s) = s
text_of w v = w.repr v

-- `{k: f(str(v)) for k, v in params.items()}`
unfoldable pub text_params : World → (String → String) → Fields → Dict String
text_params w f end = []
text_params w f (field k v rest) = (k, f (text_of w v)) ∷ text_params w f rest

-- `[f(str(v)) for v in params.values()]`
unfoldable pub text_values : World → (String → String) → Fields → List String
text_values w f end = []
text_values w f (field k v rest) = f (text_of w v) ∷ text_values w f rest

abbrev pub same : String → String
same s = s

-- `value.format(**params)`, for a value that is a text; any other has no `format`.
abbrev pub format_value : Value → Dict String → Formatted
format_value (str template) p = format template p
format_value _ p = malformed

abbrev is_blank : Char → Bool
is_blank c = eqb (code c) b' ' || leb b'\t' (code c) && leb (code c) b'\r'

lstrip : String → String
lstrip String.[] = ""
lstrip (String.◌∷◌ c s) = let rest = lstrip s in if is_blank c then rest else String.◌∷◌ c s

rstrip : String → String
rstrip String.[] = ""
rstrip (String.◌∷◌ c s) =
    let rest = rstrip s in if is_blank c && rest == "" then "" else String.◌∷◌ c rest

-- `s.strip()`, over ASCII white space
unfoldable pub strip : String → String
unfolding lstrip rstrip
strip s = rstrip (lstrip s)
