-- ===== src/Executor/Remote/Quoting.antt =====
-- What the shell of a controller reads from the command line that is sent to it.

use auto_heal.Prelude.{
  List, Option, String, String-discrete, [], ap, arith, false, map, none, refl, some, ◌∷◌, ◌≡◌,
}
use auto_heal.Value.{Fields, end, field, get, has, obj, str}
use auto_heal.Executor.Outside.{World}
use auto_heal.Executor.Params.{same, text_of, text_values}
use auto_heal.Executor.Shell.{join_words, quote}
use auto_heal.Executor.Shell.Literal.{shell_words, shell_words-join_words-quote}
use auto_heal.Executor.Remote.{Built, build_remote_command, line, vars_words}

-- The words that a shell reads from the command line, if it does no more than split it.
abbrev pub words_of : Built → Option (List String)
words_of (line s) = shell_words s
words_of _ = none

text_values-quote :
    (w : World) (params : Fields)
    → text_values w quote params ≡ map quote (text_values w same params)
unfolding text_values
text_values-quote w end = refl
text_values-quote w (field k v f) =
    ap (λ (l : List String). quote (text_of w v) ∷ l) (text_values-quote w f)

script_line :
    (w : World) (action params : Fields) (path : String)
    → has "command" action ≡ false
    → has "playbook" action ≡ false
    → get "script" action ≡ some (str path)
    → build_remote_command w action params
      ≡ line (join_words (quote path ∷ text_values w quote params))
unfolding build_remote_command
script_line w action params path c p s = ground arith

-- For an action with a script and neither a command nor a playbook the shell reads the script's path
-- and the values of the parameters, each as one word, whatever characters they hold, and no
-- operator, expansion or comment stands outside of the quotes. (A path that looks like `x=y` would be read
-- as an assignment.)
pub build_remote_command-script :
    (w : World) (action params : Fields) (path : String)
    → has "command" action ≡ false
    → has "playbook" action ≡ false
    → get "script" action ≡ some (str path)
    → words_of (build_remote_command w action params) ≡ some (path ∷ text_values w same params)
build_remote_command-script w action params path c p s =
    rw (script_line w action params path c p s)
      (rw text_values-quote (shell_words-join_words-quote (path ∷ text_values w same params)))

-- The words of a playbook's command line: the parameters are one word, their JSON text.
abbrev pub playbook_words : World → String → Fields → List String
playbook_words w path end = "ansible-playbook" ∷ path ∷ []
playbook_words w path params =
    "ansible-playbook" ∷ path ∷ "--extra-vars" ∷ w.dumps (obj params) ∷ []

playbook_line :
    (w : World) (action params : Fields) (path : String)
    → has "command" action ≡ false
    → get "playbook" action ≡ some (str path)
    → build_remote_command w action params
      ≡ line (join_words ("ansible-playbook" ∷ quote path ∷ vars_words w params))
unfolding build_remote_command
playbook_line w action params path c s = ground arith

vars_words-quote :
    (w : World) (path : String) (params : Fields)
    → "ansible-playbook" ∷ quote path ∷ vars_words w params
      ≡ map quote (playbook_words w path params)
unfolding quote String-discrete
vars_words-quote w path end = refl
vars_words-quote w path (field k v f) = refl

-- For an action with a playbook and no command the shell reads `ansible-playbook`, the path as one
-- word and, if there are parameters, `--extra-vars` and their JSON text as another, and no operator,
-- expansion or comment stands outside of the quotes.
pub build_remote_command-playbook :
    (w : World) (action params : Fields) (path : String)
    → has "command" action ≡ false
    → get "playbook" action ≡ some (str path)
    → words_of (build_remote_command w action params) ≡ some (playbook_words w path params)
build_remote_command-playbook w action params path c s =
    rw (playbook_line w action params path c s) (
      rw (vars_words-quote w path params)
        (shell_words-join_words-quote (playbook_words w path params)))
