-- ===== src/Service/Recorded/Laws.antt =====
-- A result that the caller of /webhook is told is in the log file, and shipped.

use mathlib.Core.Option
use auto_heal.Service.Accounts.Asked.{webhook-Accounted}
use auto_heal.Service.Accounts.{Accounted, blocked, content, idle, on_record, unaudited, unnotified}
use auto_heal.Service.Webhook.{Body, webhook}
use auto_heal.Service.State.{Env, Response, State, internal_error}
use auto_heal.Executor.Result.{as_dict}
use auto_heal.Prelude.{
  List, Option, Option-cases, String, String-discrete, [], ap, append_cancel_left, false, inl, inr,
  none, refl, some, sym, ◌++◌, ◌==◌, ◌∙◌, ◌∷◌, ◌≡◌,
}
use auto_heal.Value.{Fields, Value, get, get-put, num, obj, put, str}
use auto_heal.Audit.{Line, current_state, entry, finalized, linked, next, write}
use auto_heal.Audit.Rotate.{Disk, Store, append, lines_of, maybe_rotate, written}
use auto_heal.Audit.Rotate.Laws.{IsIntact, append-IsIntact}
use auto_heal.Audit.Ship.{Shipper, Sinks, ship}
use auto_heal.Service.Recorded.{append_and_ship, append_then_ship, record_all}

module _ (hash_entry : Fields → String) (d : Disk) (retention : Fields) (o : Sinks)
    (config : Fields) where
  -- The chain's fields leave the others as they are.
  get-finalized :
      (k : String) (f : Fields) (log : List Line)
      → ("entry_hash" == k) ≡ false
      → ("prev_hash" == k) ≡ false
      → ("sequence" == k) ≡ false
      → get k (finalized hash_entry f log) ≡ get k f
  unfolding finalized
  get-finalized k f log a b c =
      let (n, hash) = current_state log in
      let chained = linked (n, hash) f in
      get-put "entry_hash" k (str (hash_entry chained)) chained
      ∙ rw a (
          get-put "prev_hash" k (str hash) (put "sequence" (num (next n)) f)
          ∙ rw b (get-put "sequence" k (num (next n)) f ∙ rw c refl))

  -- An entry that was written and shipped: the store is intact, its newest line has the entry's
  -- user and result, and the same line was shipped.
  pub record Filed (user : String) (result : Value) (shipper : Shipper) (t : Store) (sent : Shipper)
      : Type 0 where
    pub intact : IsIntact hash_entry retention t
    pub line : Fields
    pub older : List Line
    pub newest : t.log ≡ some (entry line ∷ older)
    pub line_user : get "user" line ≡ some (str user)
    pub line_result : get "execution" line ≡ some result
    pub shipped : sent ≡ ship o config line shipper

  append_and_ship-Filed :
      (user : String) (result : Value) (f : Fields) (s t : Store) (shipper sent : Shipper)
      → get "entry_hash" f ≡ none
      → get "user" f ≡ some (str user)
      → get "execution" f ≡ some result
      → append_and_ship hash_entry d retention o config f (s, shipper) ≡ some (t, sent)
      → IsIntact hash_entry retention s
      → Filed user result shipper t sent
  unfolding append_and_ship append String-discrete
  append_and_ship-Filed user result f s t shipper sent own by_user has_result h intact =
      go (maybe_rotate hash_entry d retention s) refl h
    where
      go :
          (r : Option Store)
          → maybe_rotate hash_entry d retention s ≡ r
          → Option.map (append_then_ship hash_entry d retention o config f shipper) r
            ≡ some (t, sent)
          → Filed user result shipper t sent
      go none e h' = absurd (cc h')
      go (some s') e h' =
          let line = finalized hash_entry f (lines_of s'.log) in
          let stored : written hash_entry d f s' ≡ t = cc h' in
          let went : ship o config line shipper ≡ sent = cc h' in
          let appended : append hash_entry d retention f s ≡ some t =
            ap (Option.map (written hash_entry d f)) e ∙ ap some stored in
          record {
            intact = append-IsIntact hash_entry retention d f s t own appended intact;
            line = line;
            older = lines_of s'.log;
            newest = ap (λ x. x.log) (sym stored) ∙ unfold write in refl;
            line_user = get-finalized "user" f (lines_of s'.log) refl refl refl ∙ by_user;
            line_result = get-finalized "execution" f (lines_of s'.log) refl refl refl ∙ has_result;
            shipped = sym went;
          }

  record_one :
      (f : Fields) (x : Store × Shipper)
      → record_all hash_entry d retention o config (f ∷ []) x
        ≡ append_and_ship hash_entry d retention o config f x
  unfolding record_all
  record_one f x = elim (Option-cases (append_and_ship hash_entry d retention o config f x)) [
    | inl raises ↦ rw (raises, record_all) refl
    | inr (y, e) ↦ rw (e, record_all) refl
  ]

  -- A handler's account, with what it told: the entry that it added is filed.
  Accounted-Filed :
      (env : Env) (key caller user : String) (s : State) (outcome : Response × State)
      (result : Value) (added : List Fields) (store t : Store) (shipper sent : Shipper)
      → get key (content internal_error) ≡ none
      → Accounted env key caller user s outcome
      → get key (content outcome.0) ≡ some result
      → outcome.1.audit ≡ s.audit ++ added
      → record_all hash_entry d retention o config added (store, shipper) ≡ some (t, sent)
      → IsIntact hash_entry retention store
      → Filed user result shipper t sent
  Accounted-Filed env key caller user s outcome result added store t shipper sent silent
        (idle quiet same_audit same_notices untold) told audited recorded intact =
      absurd (cc (told, untold))
  Accounted-Filed env key caller user s outcome result added store t shipper sent silent
        (blocked e reason code events audit by_user why notices untold) told audited recorded
        intact =
      absurd (cc (told, untold))
  Accounted-Filed env key caller user s outcome result added store t shipper sent silent
        (unnotified h unsent is_error) told audited recorded intact =
      absurd (cc (sym (ap (λ r. get key (content r)) is_error) ∙ told, silent))
  Accounted-Filed env key caller user s outcome result added store t shipper sent silent
        (unaudited e unwritten is_error same_audit same_notices) told audited recorded intact =
      absurd (cc (sym (ap (λ r. get key (content r)) is_error) ∙ told, silent))
  Accounted-Filed env key caller user s outcome result added store t shipper sent silent
        (on_record h accepted told_result) told audited recorded intact =
      let only : added ≡ h.entry ∷ [] =
        append_cancel_left s.audit added (h.entry ∷ []) (sym audited ∙ h.audited) in
      let same : obj (as_dict h.result) ≡ result = cc (told, told_result) in
      append_and_ship-Filed user result h.entry store t shipper sent h.entry_unchained h.entry_user
        (h.entry_result ∙ ap some same)
        (sym (record_one h.entry (store, shipper))
          ∙ ap (λ x. record_all hash_entry d retention o config x (store, shipper)) (sym only)
          ∙ recorded)
        intact

-- When the caller of /webhook is told a result, and the entries that the request added to the audit
-- log are appended to intact files and shipped without the rotation raising, the files are intact
-- again, the log's newest line has that result under the caller's name, and this line was shipped.
pub webhook-Filed :
    (hash_entry : Fields → String) (d : Disk) (retention : Fields) (o : Sinks) (config : Fields)
    (env : Env) (api_key : String) (body : Body) (s : State) (result : Value) (added : List Fields)
    (store t : Store) (shipper sent : Shipper)
    → get "execution" (content (webhook env api_key body s).0) ≡ some result
    → (webhook env api_key body s).1.audit ≡ s.audit ++ added
    → record_all hash_entry d retention o config added (store, shipper) ≡ some (t, sent)
    → IsIntact hash_entry retention store
    → Filed hash_entry d retention o config api_key result shipper t sent
webhook-Filed hash_entry d retention o config env api_key body s result added store t shipper sent
      told audited recorded intact =
    Accounted-Filed hash_entry d retention o config env "execution" api_key api_key s
      (webhook env api_key body s) result added store t shipper sent
      (unfold get String-discrete in refl) (webhook-Accounted env api_key body s) told audited
      recorded intact
