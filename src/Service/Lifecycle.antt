-- ===== src/Service/Lifecycle.antt =====
-- The handlers of src/main.py as they interleave: what a request does under `approval_lock` is one
-- step, and the steps of all requests come in any order. A claimed approval is executed between
-- the two critical sections of `approve_approval`, while other steps go on.
pub mod Handlers
pub mod Decisions
pub mod Laws
pub mod Crashes
pub mod Tests
use auto_heal.Prelude.{Bool, List, String, [], contains, false, none, true, ◌++◌, ◌∷◌, ◌≡◌}
use auto_heal.Value.{Fields}
use auto_heal.Executor.Result.{Ended}
use auto_heal.Approvals.{find}
use auto_heal.Service.State.{Env, Response, State}
use auto_heal.Service.Webhook.{Body, webhook}
use auto_heal.Service.Approve.{Claim, answered, claim_entry, claimed, settle}
use auto_heal.Service.Reject.{reject_approval}

-- The handlers' state, the claims that run, and the ids of all claims so far, the newest first.
pub record System : Type 0 where
  pub state : State
  pub running : List Claim
  pub history : List String

-- A step of one request, in an environment of its own. `others` is whatever leaves the queue as it
-- is: the passing of time, the execution of a claim, and the handlers that do not use the queue.
-- The id of a request that is queued is new.
pub data Step (x : System) : System → Type 0 where
  asks :
      (env : Env) (api_key : String) (body : Body)
      → find env.new_id x.state.queue.entries ≡ none
      → contains env.new_id x.history ≡ false
      → Step x (record x { state = (webhook env api_key body x.state).1 })
  answers :
      (env : Env) (api_key approval_id : String) (r : Response)
      → (claim_entry env api_key approval_id x.state).0 ≡ answered r
      → Step x (record x { state = (claim_entry env api_key approval_id x.state).1 })
  claims :
      (env : Env) (api_key approval_id : String) (c : Claim)
      → (claim_entry env api_key approval_id x.state).0 ≡ claimed c
      → Step x record {
        state = (claim_entry env api_key approval_id x.state).1;
        running = c ∷ x.running;
        history = c.entry.id ∷ x.history;
      }
  settles :
      (env : Env) (api_key approval_id : String) (c : Claim) (before after : List Claim)
      (controller_config : Fields) (ended : Ended)
      → x.running ≡ before ++ c ∷ after
      → Step x (record x {
        state = (settle env api_key approval_id c controller_config (ended, x.state)).1;
        running = before ++ after;
      })
  refuses :
      (env : Env) (api_key approval_id : String)
      → Step x (record x { state = (reject_approval env api_key approval_id x.state).1 })
  others : (s : State) → s.queue ≡ x.state.queue → Step x (record x { state = s })

-- Whether the save of a step goes through; a step without one is as good.
abbrev pub saves : {x : System} → {y : System} → Step x y → Bool
saves (asks env api_key body new unknown) = env.disk_ok
saves (answers env api_key id r e) = env.disk_ok
saves (claims env api_key id c e) = env.disk_ok
saves (settles env api_key id c before after config ended e) = env.disk_ok
saves (refuses env api_key id) = env.disk_ok
saves (others s e) = true

-- What a running service reaches from its first state.
pub data Reach (start : State) : System → Type 0 where
  starts : Reach start (record { state = start; running = []; history = [] })
  then : {x : System} → {y : System} → Reach start x → Step x y → Reach start y
