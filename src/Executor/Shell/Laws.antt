-- ===== src/Executor/Shell/Laws.antt =====
-- A quoted text is one word of the shell, whatever it holds.
use auto_heal.Prelude.{
  Bool, Bool-cases, List, String, String-discrete, [], ap, arith, eqb, false, inl, inr, map, refl,
  some, sym, true, ℕ, ◌<>◌, ◌==◌, ◌∙◌, ◌∷◌, ◌≡◌,
}
use auto_heal.Executor.Shell.{
  all_safe, between, emit, escape_quotes, in_single, in_word, is_safe, is_space, join_words, one,
  quote, split, split_from,
}
use mathlib.Core.Logic.{if_neg}
use Prim.Native.Char.{Char, code}
use text.Mathlib.TextEquality.{codes_equal}
use text.Mathlib.TextLemmas.{
  cons-append, nil-append, append-nil as text-append-nil, append_assoc as text-append_assoc,
}

pub quote_append : (t : String) → "'" <> t ≡ String.◌∷◌ "'" t
quote_append t = cons-append "'" "" t ∙ ap (String.◌∷◌ "'") (nil-append t)

pub escaped_append :
    (t : String)
    → "'\"'\"'" <> t
      ≡ String.◌∷◌ "'" (String.◌∷◌ "\"" (String.◌∷◌ "'" (String.◌∷◌ "\"" (String.◌∷◌ "'" t))))
escaped_append t = rw (cons-append, cons-append, cons-append, cons-append, cons-append, nil-append)

pub one_append : (c : Char) (t : String) → one c <> t ≡ String.◌∷◌ c t
one_append c t = simp (cons-append, nil-append)

snoc_append :
    (word : String) (c : Char) (s : String) → (word <> one c) <> s ≡ word <> String.◌∷◌ c s
snoc_append word c s =
    text-append_assoc word (one c) s ∙ ap (λ (t : String). word <> t) (one_append c s)

snoc_quote :
    (word : String) (c : Char) (s : String)
    → eqb (code c) b'\'' ≡ true
    → (word <> one "'") <> s ≡ word <> String.◌∷◌ c s
snoc_quote word c s q =
    snoc_append word "'" s
    ∙ ap (λ (d : Char). word <> String.◌∷◌ d s) (sym (codes_equal c "'" (ground arith)))

-- In single quotes everything up to the closing quote is taken as it stands.
split_from-escape_quotes :
    (word s rest : String)
    → split_from in_single word (escape_quotes s <> ("'" <> rest))
      ≡ split_from in_word (word <> s) rest
unfolding escape_quotes split_from
split_from-escape_quotes word String.[] rest = rw (nil-append, quote_append, text-append-nil)
split_from-escape_quotes word (String.◌∷◌ c s) rest = elim (Bool-cases (eqb (code c) b'\'')) [
  | inl q ↦ rw q (
      rw (text-append_assoc, escaped_append)
        (split_from-escape_quotes (word <> one "'") s rest
          ∙ ap (λ (t : String). split_from in_word t rest) (snoc_quote word c s q)))
  | inr q ↦ rw q (
      rw (text-append_assoc, one_append)
        (rw (q, split_from)
          (split_from-escape_quotes (word <> one c) s rest
            ∙ ap (λ (t : String). split_from in_word t rest) (snoc_append word c s))))
]

-- A safe character has no meaning of its own in a word.
pub is_safe-plain :
    (c : ℕ)
    → is_safe c ≡ true
    → (is_space c ≡ false) × (eqb c b'\\' ≡ false) × (eqb c b'\'' ≡ false) × (eqb c b'"' ≡ false)
is_safe-plain c h = ground arith

in_word-plain :
    (c : Char) (word s : String)
    → is_space (code c) ≡ false
    → eqb (code c) b'\\' ≡ false
    → eqb (code c) b'\'' ≡ false
    → eqb (code c) b'"' ≡ false
    → split_from in_word word (String.◌∷◌ c s) ≡ split_from in_word (word <> one c) s
unfolding split_from
in_word-plain c word s sp sl qu dq =
    rw (sp, split_from) (rw (sl, split_from) (rw (qu, split_from) (rw (dq, split_from))))

split_from-safe :
    (word s rest : String)
    → all_safe s ≡ true
    → split_from in_word word (s <> rest) ≡ split_from in_word (word <> s) rest
unfolding all_safe
split_from-safe word String.[] rest h = rw (nil-append, text-append-nil)
split_from-safe word (String.◌∷◌ c s) rest h =
    let p = is_safe-plain (code c) (ground arith) in
    rw cons-append (
      in_word-plain c word (s <> rest) p.0 p.1 p.2 p.3
      ∙ (split_from-safe (word <> one c) s rest (ground arith)
          ∙ ap (λ (t : String). split_from in_word t rest) (snoc_append word c s)))

between-plain :
    (c : Char) (s : String)
    → is_space (code c) ≡ false
    → eqb (code c) b'\\' ≡ false
    → eqb (code c) b'\'' ≡ false
    → eqb (code c) b'"' ≡ false
    → split_from between "" (String.◌∷◌ c s) ≡ split_from in_word (one c) s
unfolding split_from
between-plain c s sp sl qu dq =
    rw (sp, split_from) (rw (sl, split_from) (rw (qu, split_from) (rw (dq, split_from))))

is_nil : String → Bool
is_nil String.[] = true
is_nil (String.◌∷◌ c s) = false

cons-ne-nil : (c : Char) (s : String) → (String.◌∷◌ c s == "") ≡ false
unfolding is_nil
cons-ne-nil c s = elim (String-discrete (String.◌∷◌ c s) "") [
  | yes p ↦ cc (ap is_nil p)
  | no n ↦ rw (if_neg _ n)
]

pub quote-safe :
    (c : Char) (s : String)
    → all_safe (String.◌∷◌ c s) ≡ true
    → quote (String.◌∷◌ c s) ≡ String.◌∷◌ c s
quote-safe c s safe = unfold quote in rw (cons-ne-nil c s) (rw safe)

pub quote-unsafe :
    (c : Char) (s : String)
    → all_safe (String.◌∷◌ c s) ≡ false
    → quote (String.◌∷◌ c s) ≡ "'" <> (escape_quotes (String.◌∷◌ c s) <> "'")
quote-unsafe c s unsafe = unfold quote in rw (cons-ne-nil c s) (rw unsafe)

-- From between words on, a quoted text is the next word up to the next space or the end.
pub split_from-quote :
    (s rest : String) → split_from between "" (quote s <> rest) ≡ split_from in_word s rest
split_from-quote String.[] rest =
    unfold quote String-discrete split_from in rw (cons-append, cons-append, nil-append)
split_from-quote (String.◌∷◌ c s) rest = elim (Bool-cases (all_safe (String.◌∷◌ c s))) [
  | inl safe ↦
      let p = is_safe-plain (code c) (unfold all_safe in (ground arith)) in
      rw (quote-safe c s safe) (
        rw cons-append (
          between-plain c (s <> rest) p.0 p.1 p.2 p.3
          ∙ (split_from-safe (one c) s rest (unfold all_safe in (ground arith))
              ∙ ap (λ (t : String). split_from in_word t rest) (one_append c s))))
  | inr unsafe ↦ rw (quote-unsafe c s unsafe) (
      rw (text-append_assoc, quote_append, text-append_assoc)
        (unfold split_from in
          (split_from-escape_quotes "" (String.◌∷◌ c s) rest
            ∙ ap (λ (t : String). split_from in_word t rest) (nil-append (String.◌∷◌ c s)))))
]

next_word :
    (w rest : String) → split_from in_word w (" " <> rest) ≡ emit w (split_from between "" rest)
unfolding split_from
next_word w rest = rw (cons-append, nil-append)

-- Words that are quoted and joined by spaces split back into the words.
pub split-join_words-quote : (ws : List String) → split (join_words (map quote ws)) ≡ some ws
unfolding split join_words
split-join_words-quote [] = refl
split-join_words-quote (w ∷ []) =
    ap (λ (t : String). split_from between "" t) (sym (text-append-nil (quote w)))
    ∙ split_from-quote w ""
split-join_words-quote (w ∷ v ∷ ws) =
    let rest = join_words (map quote (v ∷ ws)) in
    split_from-quote w (" " <> rest)
    ∙ (next_word w rest ∙ ap (emit w) (split-join_words-quote (v ∷ ws)))
