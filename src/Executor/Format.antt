-- ===== src/Executor/Format.antt =====
-- Python's `str.format(**params)` on templates whose fields are plain names: no index, attribute,
-- conversion or format specification.
use auto_heal.Prelude.{Bool, Option, String, eqb, if◌then◌else◌, leb, none, some, true, ◌&&◌, ◌<>◌}
use auto_heal.Dict.{Dict, lookup}
use Prim.Native.Char.{Char, code}

-- The text; the text of a `KeyError` or of an `IndexError`; a `ValueError`.
pub data Formatted : Type 0 where
  text : String → Formatted
  missing : String → Formatted
  malformed : Formatted

pub data Mode : Type 0 where
  plain opened closed : Mode
  name : String → Mode

abbrev pub prepend : String → Formatted → Formatted
prepend s (text t) = text (s <> t)
prepend s r = r

abbrev pub singleton : Char → String
singleton c = String.◌∷◌ c String.[]

abbrev is_digits : String → Bool
is_digits String.[] = true
is_digits (String.◌∷◌ c s) = leb b'0' (code c) && leb (code c) b'9' && is_digits s

-- `str(e)` of the `KeyError` of a name without quotes, and of the `IndexError` of a number
abbrev pub key_error : String → Formatted
key_error key = missing ("'" <> (key <> "'"))

abbrev pub index_error : String → Formatted
index_error number =
    missing ("Replacement index " <> (number <> " out of range for positional args tuple"))

-- A field by its name. A number is an index, and there are no positional arguments.
abbrev fill : String → Option String → Formatted → Formatted
fill key none rest = key_error key
fill key (some v) rest = prepend v rest

abbrev field_text : String → Option String → Formatted → Formatted
field_text key value rest = if is_digits key then index_error key else fill key value rest

format_from : Mode → Dict String → String → Formatted
format_from plain p String.[] = text ""
format_from opened p String.[] = malformed
format_from closed p String.[] = malformed
format_from (name key) p String.[] = malformed
format_from plain p (String.◌∷◌ c s) =
    let open_next = format_from opened p s in
    let close_next = format_from closed p s in
    let rest = prepend (singleton c) (format_from plain p s) in
    if eqb (code c) b'{' then open_next else if eqb (code c) b'}' then close_next else rest
format_from opened p (String.◌∷◌ c s) =
    let brace = prepend "{" (format_from plain p s) in
    let named = format_from (name (singleton c)) p s in
    if eqb (code c) b'{' then brace else if eqb (code c) b'}' then index_error "0" else named
format_from closed p (String.◌∷◌ c s) =
    let brace = prepend "}" (format_from plain p s) in
    if eqb (code c) b'}' then brace else malformed
format_from (name key) p (String.◌∷◌ c s) =
    let filled = field_text key (lookup key p) (format_from plain p s) in
    let longer = format_from (name (key <> singleton c)) p s in
    if eqb (code c) b'}' then filled else if eqb (code c) b'{' then malformed else longer

unfoldable pub format : String → Dict String → Formatted
unfolding format_from lookup
format template p = format_from plain p template
