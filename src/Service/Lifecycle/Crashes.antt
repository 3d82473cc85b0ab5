-- ===== src/Service/Lifecycle/Crashes.antt =====
-- A process that dies between two steps and starts again from its files. What a critical section
-- changed before its save is lost with the process: that is a crash before the step.
use auto_heal.Prelude.{Bool, List, String, [], ap, refl, true, ◌++◌, ◌∙◌, ◌∷◌, ◌≡◌}
use auto_heal.Approvals.{Queue, append, load, modify, save, write}
use auto_heal.Approvals.Find.{NodupIds}
use auto_heal.Approvals.Changes.{Change, queued, unchanged, written}
use auto_heal.Cooldown
use auto_heal.Service.State.{State}
use auto_heal.Service.Lifecycle.{Step, System, others, saves, starts}
use auto_heal.Service.Lifecycle.Laws.{
  IsConsistent, Reach-IsConsistent, Step-Change, Step-IsConsistent,
}

-- A new process: what was only in memory is gone, and with it the claims that ran.
abbrev pub restarted : System → System
restarted x = record {
  state = record x.state {
    hits = [];
    tracker = Cooldown.load x.state.tracker.state_file;
    queue = load x.state.queue.state_file;
  };
  running = [];
  history = x.history;
}

-- What a service reaches whose saves go through and that may crash after any step. The history of
-- claims goes on over the crashes.
pub data Life (start : State) : System → Type 0 where
  begins : Life start (record { state = start; running = []; history = [] })
  steps :
      {x : System}
      → {y : System} → Life start x
      → (step : Step x y) → saves step ≡ true
      → Life start y
  crashes : {x : System} → Life start x → Life start (restarted x)

-- The file holds the queue: reading it gives the queue back.
abbrev pub IsSaved : Queue → Type 0
IsSaved q = load q.state_file ≡ q

save-IsSaved : (q : Queue) → IsSaved (save true q)
unfolding load save
save-IsSaved q = refl

Change-IsSaved :
    (ok : Bool) (known : List String) (q r : Queue)
    → Change ok known q r
    → ok ≡ true
    → IsSaved q
    → IsSaved r
unfolding write append
Change-IsSaved ok known q r (unchanged e) went saved = rw e saved
Change-IsSaved ok known q r (written id f k d e) went saved =
    rw e (rw went (save-IsSaved (record q { entries = modify id f q.entries })))
Change-IsSaved ok known q r (queued x waits new unknown e) went saved =
    rw e (rw went (save-IsSaved (record q { entries = q.entries ++ x ∷ [] })))

load-IsSaved : (q : Queue) → IsSaved q → IsSaved (load q.state_file)
load-IsSaved q saved = ap (λ (r : Queue). load r.state_file) saved ∙ refl

-- The new process finds the queue of the old one, and runs no claim.
restarted-IsConsistent :
    (x : System) → IsConsistent x → IsSaved x.state.queue → IsConsistent (restarted x)
restarted-IsConsistent x ok saved =
    let y = record x { state = (restarted x).state } in
    let kept = Step-IsConsistent x y (others y.state saved) ok in
    record {
      distinct = kept.distinct;
      claimed_once = kept.claimed_once;
      claimed_closed = kept.claimed_closed;
      running_claimed = tt;
    }

-- If the first queue has no id twice and its file holds it, the requests that are queued get new
-- ids, and every save goes through, then over any interleaving of requests and any crashes each
-- approval is claimed at most once and never waits again after that, and the file always holds the
-- queue.
pub Life-IsConsistent :
    {start : State} {x : System}
    → NodupIds start.queue.entries
    → IsSaved start.queue
    → Life start x
    → IsConsistent x × IsSaved x.state.queue
Life-IsConsistent distinct saved begins = (Reach-IsConsistent distinct starts, saved)
Life-IsConsistent distinct saved (steps {x} {y} life step went) =
    let (ok, was_saved) = Life-IsConsistent distinct saved life in
    (
      Step-IsConsistent x y step ok,
      Change-IsSaved (saves step) x.history x.state.queue y.state.queue (Step-Change x y step ok)
          went was_saved,
    )
Life-IsConsistent distinct saved (crashes {x} life) =
    let (ok, was_saved) = Life-IsConsistent distinct saved life in
    (restarted-IsConsistent x ok was_saved, load-IsSaved x.state.queue was_saved)
