-- ===== src/Service/Lifecycle/Tests.antt =====
-- A claim and its execution as steps of the running service.

use auto_heal.Prelude.{[], refl, ◌∷◌}
use auto_heal.Value.{end}
use auto_heal.Executor.Result.{nothing}
use auto_heal.Approvals.{find, load}
use auto_heal.Approvals.Find.{NodupIds}
use auto_heal.Approvals.Changes.{Moves, status_at}
use auto_heal.Service.Approve.{claim_entry, settle}
use auto_heal.Service.Tests.{claim, claimed_once, claimed_saved, env, saved_start, start}
use auto_heal.Service.Lifecycle.{Reach, Step, System, claims, settles, starts, then}
use auto_heal.Service.Lifecycle.Crashes.{
  IsSaved, Life, Life-IsConsistent, begins, crashes, restarted, steps,
}
use auto_heal.Service.Lifecycle.Laws.{IsConsistent, Reach-IsConsistent, Step-Moves}

abbrev idle : System
idle = record { state = start; running = []; history = [] }

abbrev claiming : System
claiming = record {
  state = (claim_entry env "admin-key" "7" start).1;
  running = claim ∷ [];
  history = "7" ∷ [];
}

claiming_reached : Reach start claiming
claiming_reached = then starts (claims env "admin-key" "7" claim claimed_once)

-- The claim fails: it turns out to have nothing to run.
abbrev failed : System
failed = record claiming {
  state = (settle env "admin-key" "7" claim end (nothing, claiming.state)).1;
  running = [];
}

failing : Step claiming failed
failing = settles env "admin-key" "7" claim [] [] end nothing refl

one_entry : NodupIds start.queue.entries
unfolding find
one_entry = (refl, tt)

Reach-IsConsistent_example : IsConsistent failed
Reach-IsConsistent_example = Reach-IsConsistent one_entry (then claiming_reached failing)

Step-Moves_example : Moves (status_at "7" claiming.state.queue) (status_at "7" failed.state.queue)
Step-Moves_example = Step-Moves one_entry claiming_reached failing "7"

-- The process dies while the claim runs.
abbrev saved_claiming : System
saved_claiming = record {
  state = (claim_entry env "admin-key" "7" saved_start).1;
  running = claim ∷ [];
  history = "7" ∷ [];
}

dying : Life saved_start (restarted saved_claiming)
dying = crashes (steps begins (claims env "admin-key" "7" claim claimed_saved) refl)

Life-IsConsistent_example :
    IsConsistent (restarted saved_claiming) × IsSaved (restarted saved_claiming).state.queue
unfolding find load
Life-IsConsistent_example = Life-IsConsistent (refl, tt) refl dying
