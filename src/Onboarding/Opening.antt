-- ===== src/Onboarding/Opening.antt =====
-- What `getOrCreateActiveFlowInTx` and `findActiveFlowForUser` of
-- services/server/src/onboarding/store.ts answer to each other.
use chief_everything_officer.Base.{String, Bool, true, some, List, ◌&&◌, ◌≡◌, ◌==◌}
use chief_everything_officer.Onboarding.{Flow}
use chief_everything_officer.Onboarding.Store.{Stored, stored, is_active, find_active_flow_for_user}
use chief_everything_officer.Onboarding.Active.{is_open}

-- The flow that the store handed out is an open one of the user, and is found as such.
pub record IsOpened (user : String) (o : List Flow × Stored) : Type 0 where
  pub flow : Flow
  pub handed_out : o.1 ≡ stored flow
  pub same_user : flow.user_id ≡ user
  pub opened : is_open flow.state ≡ true
  pub row : Flow
  pub found : find_active_flow_for_user o.0 user ≡ some row
  pub same_id : row.id ≡ flow.id

abbrev of_user : String → Flow → Bool
of_user user f = f.user_id == user && is_active f.state
