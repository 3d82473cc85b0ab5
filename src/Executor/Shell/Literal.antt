-- ===== src/Executor/Shell/Literal.antt =====
-- What a shell takes literally: texts in which nothing that is not quoted is an operator, an expansion
-- or a comment. The splitting in `split` is then all that the shell does with a line, but for a first
-- word with `=`, which it takes as an assignment.
use auto_heal.Prelude.{
  Bool, Bool-cases, List, Option, String, String-discrete, [], ap, arith, eqb, false, if◌then◌else◌,
  inl, inr, map, none, refl, some, sym, true, ℕ, ◌<>◌, ◌||◌, ◌∙◌, ◌∷◌, ◌≡◌,
}
use auto_heal.Executor.Shell.{
  Mode, after_slash, after_slash_quoted, all_safe, between, escape_quotes, in_double, in_single,
  in_word, is_safe, is_space, join_words, quote, split,
}
use auto_heal.Executor.Shell.Laws.{
  escaped_append, is_safe-plain, one_append, quote-safe, quote-unsafe, quote_append,
  split-join_words-quote,
}
use Prim.Native.Char.{Char, code}
use text.Mathlib.TextLemmas.{
  cons-append, nil-append, append-nil as text-append-nil, append_assoc as text-append_assoc,
}

-- The operators ; & | < > ( ), the newline, the expansions $ ` * ? [ ] { } ~ ! ^ and the comment #
abbrev pub is_special : ℕ → Bool
is_special c =
    eqb c b';'
    || eqb c b'&'
    || eqb c b'|'
    || eqb c b'<'
    || eqb c b'>'
    || eqb c b'('
    || eqb c b')'
    || eqb c b'\n'
    || eqb c b'$'
    || eqb c b'`'
    || eqb c b'*'
    || eqb c b'?'
    || eqb c b'['
    || eqb c b']'
    || eqb c b'{'
    || eqb c b'}'
    || eqb c b'~'
    || eqb c b'!'
    || eqb c b'^'
    || eqb c b'#'

-- What a shell expands in double quotes
abbrev pub is_expanding : ℕ → Bool
is_expanding c = eqb c b'$' || eqb c b'`' || eqb c b'!'

-- From a mode on, nothing special stands outside of quotes.
unfoldable pub is_literal_from : Mode → String → Bool
is_literal_from mode String.[] = true
is_literal_from between (String.◌∷◌ c s) =
    let skip = is_literal_from between s in
    let slash = is_literal_from after_slash s in
    let single = is_literal_from in_single s in
    let double = is_literal_from in_double s in
    let start = is_literal_from in_word s in
    if is_special (code c)
    then false
    else if is_space (code c)
    then skip
    else if eqb (code c) b'\\'
    then slash
    else if eqb (code c) b'\''
    then single
    else if eqb (code c) b'"'
    then double
    else start
is_literal_from in_word (String.◌∷◌ c s) =
    let skip = is_literal_from between s in
    let slash = is_literal_from after_slash s in
    let single = is_literal_from in_single s in
    let double = is_literal_from in_double s in
    let more = is_literal_from in_word s in
    if is_special (code c)
    then false
    else if is_space (code c)
    then skip
    else if eqb (code c) b'\\'
    then slash
    else if eqb (code c) b'\''
    then single
    else if eqb (code c) b'"'
    then double
    else more
is_literal_from in_single (String.◌∷◌ c s) =
    let close = is_literal_from in_word s in
    let more = is_literal_from in_single s in if eqb (code c) b'\'' then close else more
is_literal_from in_double (String.◌∷◌ c s) =
    let close = is_literal_from in_word s in
    let slash = is_literal_from after_slash_quoted s in
    let more = is_literal_from in_double s in
    if is_expanding (code c)
    then false
    else if eqb (code c) b'"'
    then close
    else if eqb (code c) b'\\'
    then slash
    else more
is_literal_from after_slash (String.◌∷◌ c s) = is_literal_from in_word s
is_literal_from after_slash_quoted (String.◌∷◌ c s) = is_literal_from in_double s

-- The words that a shell reads from a line; `none` where it does more than split it.
unfoldable pub shell_words : String → Option (List String)
unfolding is_literal_from split
shell_words s = if is_literal_from between s then split s else none

is_literal-escape_quotes :
    (s rest : String)
    → is_literal_from in_single (escape_quotes s <> ("'" <> rest)) ≡ is_literal_from in_word rest
unfolding escape_quotes is_literal_from
is_literal-escape_quotes String.[] rest = rw (nil-append, quote_append)
is_literal-escape_quotes (String.◌∷◌ c s) rest = elim (Bool-cases (eqb (code c) b'\'')) [
  | inl q ↦ rw q (rw (text-append_assoc, escaped_append) (is_literal-escape_quotes s rest))
  | inr q ↦ rw q (
      rw (text-append_assoc, one_append)
        (rw (q, is_literal_from) (is_literal-escape_quotes s rest)))
]

-- A safe character is none of the special ones.
is_safe-ordinary : (c : ℕ) → is_safe c ≡ true → is_special c ≡ false
is_safe-ordinary c h = ground arith

is_literal-cons :
    (c : Char) (s : String)
    → is_safe (code c) ≡ true
    → (is_literal_from between (String.◌∷◌ c s) ≡ is_literal_from in_word s)
      × (is_literal_from in_word (String.◌∷◌ c s) ≡ is_literal_from in_word s)
unfolding is_literal_from
is_literal-cons c s safe =
    let p = is_safe-plain (code c) safe in
    let ordinary = is_safe-ordinary (code c) safe in
    rw (ordinary, is_literal_from)
      (rw (p.0, is_literal_from)
        (rw (p.1, is_literal_from)
          (rw (p.2, is_literal_from) (rw (p.3, is_literal_from) (refl, refl)))))

is_literal-safe :
    (s rest : String)
    → all_safe s ≡ true
    → is_literal_from in_word (s <> rest) ≡ is_literal_from in_word rest
unfolding all_safe
is_literal-safe String.[] rest h = rw nil-append refl
is_literal-safe (String.◌∷◌ c s) rest h =
    rw cons-append
      ((is_literal-cons c (s <> rest) (ground arith)).1 ∙ is_literal-safe s rest (ground arith))

is_literal-quote :
    (s rest : String) → is_literal_from between (quote s <> rest) ≡ is_literal_from in_word rest
is_literal-quote String.[] rest =
    unfold quote String-discrete is_literal_from in rw (cons-append, cons-append, nil-append)
is_literal-quote (String.◌∷◌ c s) rest = elim (Bool-cases (all_safe (String.◌∷◌ c s))) [
  | inl safe ↦ rw (quote-safe c s safe) (
      rw cons-append (
        (is_literal-cons c (s <> rest) (unfold all_safe in (ground arith))).0
        ∙ is_literal-safe s rest (unfold all_safe in (ground arith))))
  | inr unsafe ↦ rw (quote-unsafe c s unsafe) (
      rw (text-append_assoc, quote_append, text-append_assoc)
        (unfold is_literal_from in is_literal-escape_quotes (String.◌∷◌ c s) rest))
]

is_literal-space :
    (rest : String) → is_literal_from in_word (" " <> rest) ≡ is_literal_from between rest
unfolding is_literal_from
is_literal-space rest = rw (cons-append, nil-append)

is_literal-join_words-quote :
    (ws : List String) → is_literal_from between (join_words (map quote ws)) ≡ true
unfolding join_words is_literal_from
is_literal-join_words-quote [] = refl
is_literal-join_words-quote (w ∷ []) =
    ap (λ (t : String). is_literal_from between t) (sym (text-append-nil (quote w)))
    ∙ is_literal-quote w ""
is_literal-join_words-quote (w ∷ v ∷ ws) =
    let rest = join_words (map quote (v ∷ ws)) in
    is_literal-quote w (" " <> rest)
    ∙ (is_literal-space rest ∙ is_literal-join_words-quote (v ∷ ws))

-- A shell reads words that are quoted and joined by spaces as these words.
pub shell_words-join_words-quote :
    (ws : List String) → shell_words (join_words (map quote ws)) ≡ some ws
unfolding shell_words
shell_words-join_words-quote ws =
    rw (is_literal-join_words-quote ws, shell_words) (split-join_words-quote ws)
