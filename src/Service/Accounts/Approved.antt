-- ===== src/Service/Accounts/Approved.antt =====
-- What approving a request leaves on record.

use auto_heal.Prelude.{String}
use auto_heal.Service.State.{Env, Response, State}
use auto_heal.Service.Accounts.{Accounted}
use auto_heal.Service.Accounts.Decided.{Decided}

module _ (env : Env) (api_key : String) (user : String) where
  abbrev Told : State → Response × State → Type 0
  Told = Accounted env "result" api_key user
