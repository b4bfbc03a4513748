-- ===== src/Onboarding/Service/Bootstrap.antt =====
-- `verifyRepositoryAccessAndBootstrap`, `retryBootstrap` and `deriveProvisioningStatus` of
-- services/server/src/onboarding/service.ts, cut at their `await`s.
use chief_everything_officer.Base.{
  ℕ, String, Bool, true, false, Option, none, some, List, ◌&&◌, ◌==◌, is_none, if◌then◌else◌,
}
use chief_everything_officer.Base.Sql.{find_row, update_rows}
use chief_everything_officer.Identity.{RepositoryBinding}
use chief_everything_officer.Onboarding.{
  FlowState, provisioning, awaiting_repository_restriction, ready_to_resume, recovery_required,
  completed, Flow,
}
use chief_everything_officer.Onboarding.Store.{assign, Patch, no_patch}
use chief_everything_officer.Onboarding.Service.{
  ServiceState, Provisioning, ready, verification_failed, Reply, flow_not_found, invalid_state,
  incomplete_flow, no_workspace, restriction_required, raised, verifying, bootstrapping,
  asking_status, scope_refused, status, derived, code_of, patch_flow, own_flow, truthy, or_text,
  no_error,
}
use chief_everything_officer.Onboarding.Service.Scope.{ScopeAnswers, verify_live_installation_scope}

abbrev is_restricting : FlowState → Bool
is_restricting awaiting_repository_restriction = true
is_restricting _ = false

-- `verifyRepositoryAccessAndBootstrap` until the verification.
unfoldable pub start_verification : ServiceState → String → String → ServiceState × Reply
unfolding own_flow
start_verification s flow_id user_id = elim (own_flow s flow_id user_id) [
  | none ↦ (s, flow_not_found)
  | some f ↦
      if is_restricting f.state
      then elim (truthy f.workspace_id) [
        | none ↦ (s, incomplete_flow)
        | some workspace ↦ (s, verifying workspace)
      ]
      else (s, invalid_state)
]

abbrev set_verified : String → Option ℕ → List RepositoryBinding → List RepositoryBinding
set_verified workspace at =
    update_rows (λ (b : RepositoryBinding). b.workspace_id == workspace)
      (λ b. record b { access_scope_verified_at_ms = at })

unfoldable pub clear_repository_binding_scope_verified : ServiceState → String → ServiceState
clear_repository_binding_scope_verified s workspace = record s {
  bindings = set_verified workspace none s.bindings;
}

-- `none` is the error for a workspace without a binding.
unfoldable pub mark_repository_binding_scope_verified :
    ServiceState → String → ℕ → Option ServiceState
mark_repository_binding_scope_verified s workspace now =
    elim (find_row (λ (b : RepositoryBinding). b.workspace_id == workspace) s.bindings) [
      | none ↦ none
      | some b ↦ some (record s { bindings = set_verified workspace (some now) s.bindings })
    ]

-- After the verification: a refusal withdraws the mark of the binding; a success sets it. The
-- reconciliation of the binding's names writes no column of the model. The message of a refusal
-- tells its reason in words; the code of the reason stands for it.
unfoldable pub finish_verification :
    ServiceState → String → String → ScopeAnswers → ℕ → ServiceState × Reply
unfolding verify_live_installation_scope clear_repository_binding_scope_verified
    mark_repository_binding_scope_verified patch_flow
finish_verification s flow_id workspace answers now =
    elim (verify_live_installation_scope answers) [
      | some why ↦
          patch_flow (clear_repository_binding_scope_verified s workspace) flow_id
            (record no_patch {
              last_error_code = assign (some (code_of why));
              last_error_message = assign (some (code_of why));
            })
            now (λ g. scope_refused why)
      | none ↦ elim (mark_repository_binding_scope_verified s workspace now) [
        | none ↦ (s, raised)
        | some marked ↦
            patch_flow marked flow_id (record no_patch { state = assign provisioning }) now
              (λ g. bootstrapping workspace)
      ]
    ]

-- What `bootstrapWorkspace` answers: a status with the last error, or an exception.
pub data Bootstrapped : Type 0 where
  answered : Provisioning → Option String → Option String → Bootstrapped
  threw : String → Bootstrapped

abbrev pub is_ready : Provisioning → Bool
is_ready ready = true
is_ready _ = false

abbrev ready_patch : Patch
ready_patch = record no_error { state = assign ready_to_resume }

-- The end of `verifyRepositoryAccessAndBootstrap`. When an update throws, the handler's own update
-- throws the same error.
unfoldable pub finish_bootstrap : ServiceState → String → Bootstrapped → ℕ → ServiceState × Reply
unfolding patch_flow
finish_bootstrap s flow_id (answered result error_code message) now =
    if is_ready result
    then patch_flow s flow_id ready_patch now (λ g. status ready)
    else patch_flow s flow_id
        (record no_patch {
          state = assign recovery_required;
          last_error_code = assign (some (or_text error_code "BOOTSTRAP_RETRYABLE"));
          last_error_message = assign message;
        })
        now (λ g. status result)
finish_bootstrap s flow_id (threw message) now =
    patch_flow s flow_id
      (record no_patch {
        state = assign recovery_required;
        last_error_code = assign (some "BOOTSTRAP_RETRYABLE");
        last_error_message = assign (some message);
      })
      now (λ g. scope_refused verification_failed)

abbrev is_recovering : FlowState → Bool
is_recovering recovery_required = true
is_recovering _ = false

abbrev is_unverified : Option RepositoryBinding → Bool
is_unverified none = false
is_unverified (some b) = is_none b.access_scope_verified_at_ms

-- `retryBootstrap` until it calls the bootstrap service, and its end.
unfoldable pub start_retry : ServiceState → String → String → ServiceState × Reply
unfolding own_flow
start_retry s flow_id user_id = elim (own_flow s flow_id user_id) [
  | none ↦ (s, flow_not_found)
  | some f ↦
      if is_recovering f.state
      then elim (truthy f.workspace_id) [
        | none ↦ (s, no_workspace)
        | some workspace ↦
            if is_unverified
              (find_row (λ (b : RepositoryBinding). b.workspace_id == workspace) s.bindings)
            then (s, restriction_required)
            else (s, bootstrapping workspace)
      ]
      else (s, invalid_state)
]

unfoldable pub finish_retry : ServiceState → String → Bootstrapped → ℕ → ServiceState × Reply
unfolding patch_flow
finish_retry s flow_id (answered result error_code message) now =
    if is_ready result
    then patch_flow s flow_id ready_patch now (λ g. status ready)
    else (s, status result)
finish_retry s flow_id (threw message) now = (s, raised)

-- `deriveProvisioningStatus` until it asks the bootstrap service, and its end with the flow that
-- was read before.
unfoldable pub start_deriving : ServiceState → String → String → ServiceState × Reply
unfolding own_flow
start_deriving s flow_id user_id = elim (own_flow s flow_id user_id) [
  | none ↦ (s, flow_not_found)
  | some f ↦ elim (truthy f.workspace_id) [
    | none ↦ (s, derived f none)
    | some workspace ↦ (s, asking_status workspace)
  ]
]

abbrev pub may_become_ready : FlowState → Bool
may_become_ready ready_to_resume = false
may_become_ready completed = false
may_become_ready _ = true

unfoldable pub finish_deriving : ServiceState → Flow → Provisioning → ℕ → ServiceState × Reply
unfolding patch_flow
finish_deriving s f result now =
    if is_ready result && may_become_ready f.state
    then patch_flow s f.id ready_patch now (λ g. derived g (some result))
    else (s, derived f (some result))
