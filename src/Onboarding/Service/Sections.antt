-- ===== src/Onboarding/Service/Sections.antt =====
-- The asynchronous methods of services/server/src/onboarding/service.ts, cut at their `await`s.
use Prim.Native.Char.{Char}
use Prim.Native.String
use chief_everything_officer.Base.{
  ℕ, String, Bool, true, false, Option, none, some, List, [], ◌∷◌, ◌&&◌, ◌||◌, nat_eq,
  if◌then◌else◌,
}
use chief_everything_officer.Connector.UserCode.{chars, is_char}
use chief_everything_officer.Connector.Enrollments.{lower_text}
use chief_everything_officer.Onboarding.{
  awaiting_repository_choice, provisioning, awaiting_repository_restriction, recovery_required,
  Flow,
}
use chief_everything_officer.Onboarding.Store.{assign, no_patch}
use chief_everything_officer.Onboarding.Service.{
  ServiceState, Installation, LiveInstallation, Reply, flow_not_found, workspace_already_exists,
  no_partial_repository, selection_required, need_install, partial_creation, name_conflict, raised,
  installed, creating, importing, provisioned, patch_flow, own_flow, truthy, or_text, no_error,
}
use chief_everything_officer.Onboarding.Service.Scope.{live_candidates}

-- `resolveInstallationState` once every candidate has its answer.
abbrev pub choose_installation :
    ServiceState → String → ℕ → List Installation → ServiceState × Reply
choose_installation s flow_id now [] = (s, need_install)
choose_installation s flow_id now (one ∷ []) =
    patch_flow s flow_id (record no_error { installation_row_id = assign (some one.id) }) now
      (λ f. installed one)
choose_installation s flow_id now (one ∷ two ∷ more) = (s, selection_required)

unfoldable pub resolve_installation_state :
    ServiceState → String → List (Installation × Option LiveInstallation) → ℕ → ServiceState × Reply
unfolding live_candidates
resolve_installation_state s flow_id answers now =
    choose_installation s flow_id now (live_candidates answers)

-- `provisionWorkspace` until it calls the repository service.
unfoldable pub start_provisioning : ServiceState → String → String → ℕ → ServiceState × Reply
unfolding own_flow patch_flow
start_provisioning s flow_id user_id now = elim (own_flow s flow_id user_id) [
  | none ↦ (s, flow_not_found)
  | some f ↦ elim (truthy f.workspace_id) [
    | some workspace ↦ (s, workspace_already_exists)
    | none ↦ elim (truthy f.repository_id) [
      | some repository ↦ (s, importing repository)
      | none ↦
          patch_flow s flow_id (record no_patch { state = assign provisioning }) now
            (λ g. creating (or_text f.desired_repository_name "personal-vault"))
    ]
  ]
]

-- What `createRepositoryAndBind` answers: the workspace, the repository and the installation; the
-- repository that GitHub created without a workspace; or another error with its HTTP status.
pub data Creation : Type 0 where
  created : String → String → String → Creation
  partly_created : Option String → String → Creation
  failed : Option ℕ → String → Creation

unfoldable pub is_prefix : List Char → List Char → Bool
unfolding is_char
is_prefix [] cs = true
is_prefix (p ∷ ps) [] = false
is_prefix (p ∷ ps) (c ∷ cs) = is_char p c && is_prefix ps cs

-- `/pattern/i.test(text)` for a pattern of ASCII letters and spaces.
unfoldable pub mentions : List Char → List Char → Bool
unfolding is_prefix
mentions [] pattern = is_prefix pattern []
mentions (c ∷ cs) pattern = is_prefix pattern (c ∷ cs) || mentions cs pattern

abbrev has_status : Option ℕ → Bool
has_status none = false
has_status (some n) = nat_eq n 422

unfoldable pub is_conflict : Option ℕ → String → Bool
unfolding mentions lower_text
is_conflict http_status message =
    let text = lower_text (chars message) in
    has_status http_status
    || (mentions text (chars "already exists") || mentions text (chars "conflict"))

-- As a template literal prints it.
abbrev or_null : Option String → String
or_null none = "null"
or_null (some s) = s

-- The end of `provisionWorkspace`. When the update after a creation throws, the handler's own
-- update throws the same error.
unfoldable pub finish_provisioning : ServiceState → Flow → Creation → ℕ → ServiceState × Reply
unfolding patch_flow is_conflict
finish_provisioning s f (created workspace repository installation) now =
    patch_flow s f.id
      (record no_error {
        workspace_id = assign (some workspace);
        repository_id = assign (some repository);
        installation_row_id = assign (some installation);
        state = assign awaiting_repository_restriction;
      })
      now (λ g. provisioned workspace)
finish_provisioning s f (partly_created repository message) now =
    patch_flow s f.id
      (record no_patch {
        repository_id = assign repository;
        state = assign recovery_required;
        last_error_code = assign (some "PARTIAL_REPOSITORY_CREATION");
        last_error_message = assign (some message);
      })
      now (λ g. partial_creation)
finish_provisioning s f (failed http_status message) now =
    if is_conflict http_status message
    then patch_flow s f.id
        (record no_patch {
          state = assign awaiting_repository_choice;
          last_error_code = assign (some "REPOSITORY_NAME_CONFLICT");
          last_error_message = assign (
              some (
                String.◌++◌ "Repository name '" (
                  String.◌++◌ (or_null f.desired_repository_name)
                    "' already exists on GitHub. Please choose another name.")));
        })
        now (λ g. name_conflict)
    else patch_flow s f.id
        (record no_patch {
          state = assign recovery_required;
          last_error_code = assign (some "PROVISIONING_FAILED");
          last_error_message = assign (some message);
        })
        now (λ g. raised)

-- `recoverPartialCreation` until it calls `importRepositoryAndBind`, and its end; an error of the
-- import passes through and writes nothing.
unfoldable pub start_recovery : ServiceState → String → String → ServiceState × Reply
unfolding own_flow
start_recovery s flow_id user_id = elim (own_flow s flow_id user_id) [
  | none ↦ (s, flow_not_found)
  | some f ↦ elim (truthy f.repository_id) [
    | none ↦ (s, no_partial_repository)
    | some repository ↦ (s, importing repository)
  ]
]

unfoldable pub finish_recovery : ServiceState → String → String → String → ℕ → ServiceState × Reply
unfolding patch_flow
finish_recovery s flow_id workspace installation now =
    patch_flow s flow_id
      (record no_error {
        workspace_id = assign (some workspace);
        installation_row_id = assign (some installation);
        state = assign awaiting_repository_restriction;
      })
      now (λ g. provisioned workspace)
