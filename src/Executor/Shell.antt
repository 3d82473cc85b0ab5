-- ===== src/Executor/Shell.antt =====
-- The words of a shell: `shlex.quote`, and `shlex.split` in its default (POSIX) mode.
pub mod Laws
pub mod Literal
use auto_heal.Prelude.{
  Bool, List, Option, String, [], eqb, if◌then◌else◌, leb, none, some, true, ℕ, ◌&&◌, ◌<>◌, ◌==◌,
  ◌||◌, ◌∷◌,
}
use Prim.Native.Char.{Char, code}
use Prim.Native.String.{[] as empty}

abbrev pub one : Char → String
one c = String.◌∷◌ c String.[]

-- `[a-zA-Z0-9@%+=:,./_-]`, the characters that need no quotes
abbrev pub is_safe : ℕ → Bool
is_safe c =
    leb b'a' c && leb c b'z'
    || leb b'A' c && leb c b'Z'
    || leb b'-' c && leb c b':'
    || eqb c b'@'
    || eqb c b'%'
    || eqb c b'+'
    || eqb c b'='
    || eqb c b','
    || eqb c b'_'

unfoldable pub all_safe : String → Bool
all_safe String.[] = true
all_safe (String.◌∷◌ c s) = is_safe (code c) && all_safe s

-- `s.replace("'", "'\"'\"'")`
unfoldable pub escape_quotes : String → String
escape_quotes String.[] = ""
escape_quotes (String.◌∷◌ c s) =
    let rest = escape_quotes s in if eqb (code c) b'\'' then "'\"'\"'" <> rest else one c <> rest

-- `shlex.quote`
unfoldable pub quote : String → String
unfolding all_safe escape_quotes
quote s = if s == "" then "''" else if all_safe s then s else "'" <> (escape_quotes s <> "'")

-- `" ".join(words)`
unfoldable pub join_words : List String → String
join_words [] = ""
join_words (w ∷ []) = w
join_words (w ∷ v ∷ ws) = w <> (" " <> join_words (v ∷ ws))

-- Between words, in a word, in single or in double quotes, after a backslash in a word and after
-- one in double quotes.
pub data Mode : Type 0 where
  between in_word in_single in_double after_slash after_slash_quoted : Mode

abbrev pub is_space : ℕ → Bool
is_space c = eqb c b' ' || eqb c b'\t' || eqb c b'\r' || eqb c b'\n'

abbrev pub emit : String → Option (List String) → Option (List String)
emit word none = none
emit word (some ws) = some (word ∷ ws)

-- The tokens from a mode and the word so far on; `none` where `shlex` raises a `ValueError`.
unfoldable pub split_from : Mode → String → String → Option (List String)
split_from between word String.[] = some []
split_from in_word word String.[] = some (word ∷ [])
split_from in_single word String.[] = none
split_from in_double word String.[] = none
split_from after_slash word String.[] = none
split_from after_slash_quoted word String.[] = none
split_from between word (String.◌∷◌ c s) =
    let skip = split_from between "" s in
    let slash = split_from after_slash "" s in
    let single = split_from in_single "" s in
    let double = split_from in_double "" s in
    let start = split_from in_word (one c) s in
    if is_space (code c)
    then skip
    else if eqb (code c) b'\\'
    then slash
    else if eqb (code c) b'\''
    then single
    else if eqb (code c) b'"'
    then double
    else start
split_from in_word word (String.◌∷◌ c s) =
    let next = emit word (split_from between "" s) in
    let slash = split_from after_slash word s in
    let single = split_from in_single word s in
    let double = split_from in_double word s in
    let more = split_from in_word (word <> one c) s in
    if is_space (code c)
    then next
    else if eqb (code c) b'\\'
    then slash
    else if eqb (code c) b'\''
    then single
    else if eqb (code c) b'"'
    then double
    else more
split_from in_single word (String.◌∷◌ c s) =
    let close = split_from in_word word s in
    let more = split_from in_single (word <> one c) s in if eqb (code c) b'\'' then close else more
split_from in_double word (String.◌∷◌ c s) =
    let close = split_from in_word word s in
    let slash = split_from after_slash_quoted word s in
    let more = split_from in_double (word <> one c) s in
    if eqb (code c) b'"' then close else if eqb (code c) b'\\' then slash else more
split_from after_slash word (String.◌∷◌ c s) = split_from in_word (word <> one c) s
split_from after_slash_quoted word (String.◌∷◌ c s) =
    let literal = split_from in_double (word <> one c) s in
    let kept = split_from in_double (word <> ("\\" <> one c)) s in
    if eqb (code c) b'\\' || eqb (code c) b'"' then literal else kept

-- `shlex.split`
unfoldable pub split : String → Option (List String)
unfolding split_from
split s = split_from between "" s
