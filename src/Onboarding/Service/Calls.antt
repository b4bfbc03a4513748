-- ===== src/Onboarding/Service/Calls.antt =====
-- Sequences of parts of methods of services/server/src/onboarding, in any order: the store's and
-- the service's.
use chief_everything_officer.Base.{ℕ, String, Option, List, [], ◌∷◌}
use chief_everything_officer.Onboarding.{Flow}
use chief_everything_officer.Onboarding.Store.{
  Patch, get_or_create_active_flow_in_tx, update_flow, delete_flow, cleanup_expired,
}
use chief_everything_officer.Onboarding.Service.{
  ServiceState, Installation, LiveInstallation, Provisioning, submit_repository_choice,
}
use chief_everything_officer.Onboarding.Service.Scope.{ScopeAnswers}
use chief_everything_officer.Onboarding.Service.Sections.{
  Creation, resolve_installation_state, start_provisioning, finish_provisioning, finish_recovery,
}
use chief_everything_officer.Onboarding.Service.Bootstrap.{
  Bootstrapped, finish_verification, finish_bootstrap, finish_retry, finish_deriving,
}

-- The parts that only read are left out: they leave the state as it is. `updates` and `deletes` are
-- the store's own methods, `updates` as the routers call it too.
pub data ServiceCall : Type 0 where
  opens : String → String → ℕ → Option String → String → ℕ → ServiceCall
  cleans : ℕ → ServiceCall
  updates : String → Patch → ℕ → ServiceCall
  deletes : String → ServiceCall
  chooses : String → String → String → ℕ → ServiceCall
  resolves : String → List (Installation × Option LiveInstallation) → ℕ → ServiceCall
  starts_provisioning : String → String → ℕ → ServiceCall
  finishes_provisioning : Flow → Creation → ℕ → ServiceCall
  finishes_recovery : String → String → String → ℕ → ServiceCall
  finishes_verification : String → String → ScopeAnswers → ℕ → ServiceCall
  finishes_bootstrap finishes_retry : String → Bootstrapped → ℕ → ServiceCall
  finishes_deriving : Flow → Provisioning → ℕ → ServiceCall

unfoldable pub step : ServiceState → ServiceCall → ServiceState
step s (opens user subject ttl host uuid now) = record s {
  flows = (get_or_create_active_flow_in_tx s.flows user subject ttl host uuid now).0;
}
step s (cleans now) = record s { flows = cleanup_expired s.flows now }
step s (updates flow patch now) = record s { flows = (update_flow s.flows flow patch now).0 }
step s (deletes flow) = record s { flows = (delete_flow s.flows flow).0 }
step s (chooses flow user name now) = (submit_repository_choice s flow user name now).0
step s (resolves flow answers now) = (resolve_installation_state s flow answers now).0
step s (starts_provisioning flow user now) = (start_provisioning s flow user now).0
step s (finishes_provisioning f creation now) = (finish_provisioning s f creation now).0
step s (finishes_recovery flow workspace installation now) =
    (finish_recovery s flow workspace installation now).0
step s (finishes_verification flow workspace answers now) =
    (finish_verification s flow workspace answers now).0
step s (finishes_bootstrap flow result now) = (finish_bootstrap s flow result now).0
step s (finishes_retry flow result now) = (finish_retry s flow result now).0
step s (finishes_deriving f result now) = (finish_deriving s f result now).0

unfoldable pub run : ServiceState → List ServiceCall → ServiceState
unfolding step
run s [] = s
run s (c ∷ cs) = run (step s c) cs
