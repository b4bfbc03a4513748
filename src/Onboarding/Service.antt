-- ===== src/Onboarding/Service.antt =====
-- OnboardingService of services/server/src/onboarding/service.ts. A method that awaits another
-- service is cut there: its first part ends with what it asks for, and its last part takes the
-- answer, with anything between them. What GitHub and the services under github answer is an argument.
pub mod Scope
pub mod Sections
pub mod Bootstrap
pub mod Calls
use Prim.Native.Char.{Char, code}
use Prim.Native.String
use chief_everything_officer.Base.{
  ℕ, String, Bool, true, false, Option, none, some, List, [], ◌∷◌, ◌&&◌, ◌||◌, ◌==◌, not, ltb, leb,
  nat_eq, length, if◌then◌else◌,
}
use chief_everything_officer.Identity.{RepositoryBinding}
use chief_everything_officer.OAuth.Scope.{is_empty, trim}
use chief_everything_officer.Connector.UserCode.{chars}
use chief_everything_officer.Onboarding.{FlowState, awaiting_github_access, Flow}
use chief_everything_officer.Onboarding.Store.{
  Field, assign, Patch, no_patch, Stored, not_found, constraint_failed, stored, get_flow,
  update_flow,
}

pub record ServiceState : Type 0 where
  pub flows : List Flow
  pub bindings : List RepositoryBinding

-- An installation of the user in the database, and what GitHub says of it.
pub record Installation : Type 0 where
  pub id : String
  pub github_installation_id : String
  pub github_app_id : String
  pub account_id : String
  pub account_type : String
  pub is_suspended : Bool

pub record LiveInstallation : Type 0 where
  pub id : String
  pub app_id : String
  pub account_id : String
  pub account_type : String
  pub is_suspended : Bool

pub data Provisioning : Type 0 where
  ready in_progress retryable_failure manual_recovery : Provisioning

pub data ScopeFailure : Type 0 where
  still_all scope_mismatch verification_failed : ScopeFailure

-- What a part of a method ends with: an error, a result, or a request to another service.
pub data Reply : Type 0 where
  flow_not_found invalid_repository_name invalid_state incomplete_flow : Reply
  workspace_already_exists no_partial_repository no_workspace restriction_required : Reply
  selection_required need_install partial_creation name_conflict raised : Reply
  chosen : Flow → Reply
  installed : Installation → Reply
  creating : String → Reply
  importing verifying bootstrapping asking_status provisioned : String → Reply
  scope_refused : ScopeFailure → Reply
  status : Provisioning → Reply
  derived : Flow → Option Provisioning → Reply

abbrev pub code_of : ScopeFailure → String
code_of still_all = "STILL_ALL"
code_of scope_mismatch = "SCOPE_MISMATCH"
code_of verification_failed = "VERIFICATION_FAILED"

-- A call of `updateFlow`, whose errors pass through.
abbrev pub replied : List Flow × Stored → ServiceState → (Flow → Reply) → ServiceState × Reply
replied (flows, not_found) s reply = (s, raised)
replied (flows, constraint_failed) s reply = (s, raised)
replied (flows, stored f) s reply = (record s { flows = flows }, reply f)

unfoldable pub patch_flow :
    ServiceState → String → Patch → ℕ → (Flow → Reply) → ServiceState × Reply
patch_flow s id patch now reply = replied (update_flow s.flows id patch now) s reply

-- The first lines of every method: the flow, if it is the user's.
unfoldable pub own_flow : ServiceState → String → String → Option Flow
own_flow s flow_id user_id = elim (get_flow s.flows flow_id) [
  | none ↦ none
  | some f ↦ if f.user_id == user_id then some f else none
]

-- A nullable text that JavaScript takes as true.
abbrev pub truthy : Option String → Option String
truthy none = none
truthy (some s) = if is_empty s then none else some s

abbrev pub or_text : Option String → String → String
or_text none d = d
or_text (some s) d = if is_empty s then d else s

abbrev pub no_error : Patch
no_error = record no_patch { last_error_code = assign none; last_error_message = assign none }

-- `/^[a-zA-Z0-9._-]+$/`.
unfoldable pub is_name_char : Char → Bool
is_name_char c =
    leb b'a' (code c) && leb (code c) b'z'
    || (leb b'A' (code c) && leb (code c) b'Z'
        || (leb b'0' (code c) && leb (code c) b'9'
            || (nat_eq (code c) b'.' || (nat_eq (code c) b'_' || nat_eq (code c) b'-'))))

unfoldable pub all_name_chars : List Char → Bool
unfolding is_name_char
all_name_chars [] = true
all_name_chars (c ∷ cs) = is_name_char c && all_name_chars cs

unfoldable pub is_repository_name : String → Bool
unfolding all_name_chars
is_repository_name s =
    not (is_empty s)
    && (all_name_chars (chars s)
        && (not (s == ".") && (not (s == "..") && not (ltb 100 (length (chars s))))))

unfoldable pub submit_repository_choice :
    ServiceState → String → String → String → ℕ → ServiceState × Reply
unfolding own_flow is_repository_name patch_flow
submit_repository_choice s flow_id user_id repository_name now =
    let trimmed = trim repository_name in
    elim (own_flow s flow_id user_id) [
      | none ↦ (s, flow_not_found)
      | some f ↦
          if is_repository_name trimmed
          then patch_flow s flow_id
              (record no_error {
                desired_repository_name = assign (some trimmed);
                state = assign awaiting_github_access;
              })
              now chosen
          else (s, invalid_repository_name)
    ]
