-- ===== src/Onboarding.antt =====
-- The onboarding flows of services/server/src/onboarding/types.ts, and the table of identity/store.ts
-- that holds them.
pub mod Store
pub mod Service
pub mod Changes
pub mod Opened
pub mod Active
pub mod Histories
pub mod Workspace
pub mod Provisioned
pub mod Restricted
pub mod Ready
pub mod Opening
use chief_everything_officer.Base.{
  ℕ, String, Bool, true, false, Option, none, some, List, ◌&&◌, ◌||◌, ◌==◌, not,
}

pub data FlowState : Type 0 where
  awaiting_repository_choice awaiting_github_access provisioning : FlowState
  awaiting_repository_restriction ready_to_resume recovery_required completed : FlowState

-- `mode` is always "create".
pub record Flow : Type 0 where
  pub id : String
  pub user_id : String
  pub provider_subject : String
  pub desired_repository_name : Option String
  pub installation_row_id : Option String
  pub repository_id : Option String
  pub workspace_id : Option String
  pub state : FlowState
  pub last_error_code : Option String
  pub last_error_message : Option String
  pub host_oauth_request_id : Option String
  pub created_at_ms : ℕ
  pub updated_at_ms : ℕ
  pub expires_at_ms : ℕ

-- The states that the unique index lists.
abbrev pub is_indexed : FlowState → Bool
is_indexed awaiting_repository_choice = true
is_indexed awaiting_github_access = true
is_indexed provisioning = true
is_indexed awaiting_repository_restriction = true
is_indexed ready_to_resume = true
is_indexed recovery_required = true
is_indexed _ = false

-- Two rows that the PRIMARY KEY or the index of one active flow per user keeps apart.
unfoldable pub is_second_active : Flow → Flow → Bool
is_second_active f g = is_indexed f.state && (is_indexed g.state && f.user_id == g.user_id)

unfoldable pub clashes : Flow → Flow → Bool
unfolding is_second_active
clashes f g = f.id == g.id || is_second_active f g
