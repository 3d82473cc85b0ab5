-- ===== src/Service/Lifecycle/Laws.antt =====
-- What holds in every interleaving of requests.
use auto_heal.Service.Approve.Once.{queue-claim_entry}
use auto_heal.Service.Approve.FourEyes.{claim_entry-claimed}
use auto_heal.Approvals.{find, write}
use auto_heal.Approvals.Prune.{Approval}
use auto_heal.Prelude.{
  All, All-remove, Bool-cases, List, Option, String, [], ap, arith, contains, false, inl, inr, none,
  refl, some, sym, true, ◌∷◌, ◌≡◌,
}
use auto_heal.Approvals.Find.{NodupIds, find-write, id-find, on_found}
use auto_heal.Approvals.Changes.{Change, IsClosed, Moves, status_at, status_of, unchanged}
use auto_heal.Approvals.Changes.Laws.{Change-IsClosed, Change-Moves, Change-NodupIds}
use auto_heal.Auth.{get_role_from_api_key}
use auto_heal.Service.State.{Env, State}
use auto_heal.Service.Approve.{Claim, claim_entry, claimed, set_approved}
use auto_heal.Service.Lifecycle.{
  Reach, Step, System, answers, asks, claims, others, refuses, saves, settles, starts, then,
}
use auto_heal.Service.Lifecycle.Handlers.{webhook-Change}
use auto_heal.Service.Lifecycle.Decisions.{
  claim_entry-Change, reject_approval-Change, settle-Change,
}

-- No id is there twice.
abbrev pub Distinct : List String → Type 0
Distinct [] = Unit
Distinct (x ∷ xs) = (contains x xs ≡ false) × Distinct xs

-- The ids in the queue are distinct, and so are the ids that were ever claimed. None of these
-- waits, and every claim that runs is one of them.
pub record IsConsistent (x : System) : Type 0 where
  pub distinct : NodupIds x.state.queue.entries
  pub claimed_once : Distinct x.history
  pub claimed_closed :
      (id : String) → contains id x.history ≡ true → IsClosed (status_at id x.state.queue)
  pub running_claimed : All (λ c. contains c.entry.id x.history ≡ true) x.running

grown_history :
    (id : String) (history : List String) (running : List Claim)
    → All (λ c. contains c.entry.id history ≡ true) running
    → All (λ c. contains c.entry.id (id ∷ history) ≡ true) running
grown_history id history [] h = tt
grown_history id history (c ∷ cs) h = (ground (arith, h.0), grown_history id history cs h.1)

-- What a step does to the queue
pub Step-Change :
    (x y : System) (step : Step x y)
    → IsConsistent x
    → Change (saves step) x.history x.state.queue y.state.queue
Step-Change x y (asks env api_key body new unknown) ok =
    webhook-Change x.history env api_key body x.state new unknown
Step-Change x y (answers env api_key id r e) ok =
    claim_entry-Change x.history env api_key id x.state
Step-Change x y (claims env api_key id c e) ok = claim_entry-Change x.history env api_key id x.state
Step-Change x y (settles env api_key id c before after config ended e) ok =
    settle-Change x.history env api_key id c config ended x.state (
      ok.claimed_closed c.entry.id
        (All-remove (λ d. contains d.entry.id x.history ≡ true) before after c
          (rw (sym e) ok.running_claimed)).0)
Step-Change x y (refuses env api_key id) ok =
    reject_approval-Change x.history env api_key id x.state
Step-Change x y (others s e) ok = unchanged e

on_found_approved :
    (api_key : String) (role : Option String) (o : Option Approval)
    → IsClosed (status_of (on_found (set_approved api_key role) o))
on_found_approved api_key role none waits = cc waits
on_found_approved api_key role (some e) waits = cc waits

claims-IsClosed :
    (env : Env) (api_key id : String) (c : Claim) (s : State)
    → NodupIds s.queue.entries
    → (claim_entry env api_key id s).0 ≡ claimed c
    → IsClosed (status_at c.entry.id (claim_entry env api_key id s).1.queue)
claims-IsClosed env api_key id c s distinct e =
    let role = get_role_from_api_key env.source api_key in
    let set = set_approved api_key role in
    let r = find c.entry.id (write env.disk_ok c.entry.id set s.queue).entries in
    rw (queue-claim_entry env api_key id s c e)
      (elim (find-write env.disk_ok c.entry.id set s.queue (λ x. refl) distinct) [
        | inl there ↦
            rw there
              (λ waits. on_found_approved api_key role (find c.entry.id s.queue.entries) waits)
        | inr gone ↦ rw gone (λ waits. cc waits)
      ])

-- A claimed entry waited, so it was not claimed before.
unclaimed :
    (env : Env) (api_key id : String) (c : Claim) (x : System)
    → IsConsistent x
    → (claim_entry env api_key id x.state).0 ≡ claimed c
    → contains c.entry.id x.history ≡ false
unclaimed env api_key id c x ok e = elim (Bool-cases (contains c.entry.id x.history)) [
  | inr new ↦ new
  | inl known ↦
      let a = claim_entry-claimed env api_key id x.state c e in
      let same = id-find id x.state.queue.entries c.entry a.found in
      absurd (ok.claimed_closed c.entry.id known (rw same (rw a.found (ap some a.is_open))))
]

Step-IsClosed :
    (x y : System)
    → Step x y
    → IsConsistent x
    → (id : String) → contains id x.history ≡ true
    → IsClosed (status_at id y.state.queue)
Step-IsClosed x y step ok id known =
    Change-IsClosed (saves step) x.history x.state.queue y.state.queue (Step-Change x y step ok)
      ok.distinct id known (ok.claimed_closed id known)

Step-NodupIds : (x y : System) → Step x y → IsConsistent x → NodupIds y.state.queue.entries
Step-NodupIds x y step ok =
    Change-NodupIds (saves step) x.history x.state.queue y.state.queue (Step-Change x y step ok)
      ok.distinct

-- A step that claims nothing
history-IsConsistent :
    (x y : System)
    → Step x y
    → IsConsistent x
    → y.history ≡ x.history
    → All (λ c. contains c.entry.id x.history ≡ true) y.running
    → IsConsistent y
history-IsConsistent x y step ok same running = record {
  distinct = Step-NodupIds x y step ok;
  claimed_once = rw same ok.claimed_once;
  claimed_closed = λ id known. Step-IsClosed x y step ok id (ground arith);
  running_claimed = rw same running;
}

pub Step-IsConsistent : (x y : System) → Step x y → IsConsistent x → IsConsistent y
Step-IsConsistent x y (asks env api_key body new unknown) ok =
    history-IsConsistent x y (asks env api_key body new unknown) ok refl ok.running_claimed
Step-IsConsistent x y (answers env api_key id r e) ok =
    history-IsConsistent x y (answers env api_key id r e) ok refl ok.running_claimed
Step-IsConsistent x y (claims env api_key id c e) ok = record {
  distinct = Step-NodupIds x y (claims env api_key id c e) ok;
  claimed_once = (unclaimed env api_key id c x ok e, ok.claimed_once);
  claimed_closed = λ id' known. elim (Bool-cases (contains id' x.history)) [
    | inl before ↦ Step-IsClosed x y (claims env api_key id c e) ok id' before
    | inr new ↦
        let same : id' ≡ c.entry.id = ground arith in
        rw same (claims-IsClosed env api_key id c x.state ok.distinct e)
  ];
  running_claimed = (ground arith, grown_history c.entry.id x.history x.running ok.running_claimed);
}
Step-IsConsistent x y (settles env api_key id c before after config ended e) ok =
    history-IsConsistent x y (settles env api_key id c before after config ended e) ok refl
      (All-remove (λ d. contains d.entry.id x.history ≡ true) before after c
        (rw (sym e) ok.running_claimed)).1
Step-IsConsistent x y (refuses env api_key id) ok =
    history-IsConsistent x y (refuses env api_key id) ok refl ok.running_claimed
Step-IsConsistent x y (others s e) ok =
    history-IsConsistent x y (others s e) ok refl ok.running_claimed

-- In every interleaving, from a queue without double ids and with a new id for each queued request,
-- the ids in the queue stay distinct, each approval is claimed at most once and never waits again
-- once it is claimed, and every claim that runs was made.
pub Reach-IsConsistent :
    {start : State} {x : System} → NodupIds start.queue.entries → Reach start x → IsConsistent x
Reach-IsConsistent distinct starts = record {
  distinct = distinct;
  claimed_once = tt;
  claimed_closed = λ id known. cc known;
  running_claimed = tt;
}
Reach-IsConsistent distinct (then {x} {y} r step) =
    Step-IsConsistent x y step (Reach-IsConsistent distinct r)

-- Whatever step a running service takes, if its first queue has no double ids and queued requests
-- get new ids, every approval's status moves as the machine allows: it arrives pending, is
-- approved or rejected once, may fail after it was approved, and is dropped only when it no longer
-- waits.
pub Step-Moves :
    {start : State} {x y : System}
    → NodupIds start.queue.entries
    → Reach start x
    → Step x y
    → (id : String) → Moves (status_at id x.state.queue) (status_at id y.state.queue)
Step-Moves {start} {x} {y} distinct r step id =
    let ok = Reach-IsConsistent distinct r in
    Change-Moves (saves step) x.history x.state.queue y.state.queue (Step-Change x y step ok)
      ok.distinct id
