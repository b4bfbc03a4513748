-- ===== src/Tests/Onboarding.antt =====
-- The theorems on onboarding at concrete inputs.
use chief_everything_officer.Base.{
  true, false, none, some, List, [], ◌∷◌, ◌≡◌, ◌↔◌, refl, ◌==◌, All,
}
use chief_everything_officer.Base.Sql.{find_row, update_rows, insert_row}
use chief_everything_officer.OAuth.Scope.{trim, trim_start, trim_end, is_space}
use chief_everything_officer.Connector.UserCode.{is_char, translate}
use chief_everything_officer.Connector.Enrollments.{lower_text}
use chief_everything_officer.Onboarding.{
  Flow, awaiting_repository_restriction, is_second_active, clashes,
}
use chief_everything_officer.Onboarding.Store.{
  assign, no_patch, get_flow, find_active_row, delete_flow, write_flow, update_flow, resume_flow,
  insert_flow, get_or_create_active_flow_in_tx, delete_rows, cleanup_expired,
}
use chief_everything_officer.Onboarding.Active.{IsTable}
use chief_everything_officer.Onboarding.Service.{
  ServiceState, ready, patch_flow, own_flow, is_name_char, all_name_chars, is_repository_name,
  submit_repository_choice, workspace_already_exists,
}
use chief_everything_officer.Onboarding.Service.Scope.{
  ScopeAnswers, is_live, live_candidates, check_accessible, check_live,
  verify_live_installation_scope,
}
use chief_everything_officer.Onboarding.Service.Sections.{
  created, resolve_installation_state, start_provisioning, is_prefix, mentions, is_conflict,
  finish_provisioning, finish_recovery,
}
use chief_everything_officer.Onboarding.Service.Bootstrap.{
  answered, clear_repository_binding_scope_verified, mark_repository_binding_scope_verified,
  finish_verification, finish_bootstrap, finish_retry, finish_deriving,
}
use chief_everything_officer.Onboarding.Service.Calls.{
  ServiceCall, opens, cleans, updates, deletes, starts_provisioning, finishes_provisioning,
  finishes_verification, finishes_bootstrap, step, run,
}
use chief_everything_officer.Onboarding.Histories.{run-IsTable}
use chief_everything_officer.Onboarding.Provisioned.{provisioned_once}
use chief_everything_officer.Onboarding.Ready.{IsUnready, run-IsUnready}
use chief_everything_officer.Onboarding.Restricted.{IsRestricted, verify-IsRestricted}

-- What a run computes with.
running_onboarding : Unit {0}
unfolding ◌==◌ find_row update_rows insert_row trim trim_start trim_end is_space is_char translate
    lower_text is_second_active clashes get_flow find_active_row delete_flow write_flow update_flow
    resume_flow insert_flow get_or_create_active_flow_in_tx delete_rows cleanup_expired patch_flow
    own_flow is_name_char all_name_chars is_repository_name submit_repository_choice is_live
    live_candidates check_accessible check_live verify_live_installation_scope
    resolve_installation_state start_provisioning is_prefix mentions is_conflict finish_provisioning
    finish_recovery clear_repository_binding_scope_verified mark_repository_binding_scope_verified
    finish_verification finish_bootstrap finish_retry finish_deriving step run
running_onboarding = tt

abbrev start : ServiceState
start = record {
  flows = [];
  bindings = record { workspace_id = "ws_1"; access_scope_verified_at_ms = none } ∷ [];
}

abbrev opening_calls : List ServiceCall
opening_calls = opens "u1" "s1" 3600000 none "1" 1000 ∷ starts_provisioning "onb_1" "u1" 2000 ∷ []

abbrev opened : ServiceState
opened = run start opening_calls

-- The flow after its workspace was created.
abbrev flow : Flow
flow = record {
  id = "onb_1";
  user_id = "u1";
  provider_subject = "s1";
  desired_repository_name = some "personal-vault";
  installation_row_id = some "ghi_1";
  repository_id = some "77";
  workspace_id = some "ws_1";
  state = awaiting_repository_restriction;
  last_error_code = none;
  last_error_message = none;
  host_oauth_request_id = none;
  created_at_ms = 1000;
  updated_at_ms = 3000;
  expires_at_ms = 3601000;
}

abbrev provisioned_state : ServiceState
provisioned_state = record start { flows = flow ∷ [] }

abbrev restricted_answers : ScopeAnswers
restricted_answers = record {
  bound_repository = some 77;
  has_installation_row = true;
  live = some (false, "selected");
  has_token = true;
  accessible = some (77 ∷ []);
}

abbrev later : List ServiceCall
later =
    cleans 9000000
    ∷ updates "onb_1" (record no_patch { state = assign awaiting_repository_restriction }) 9000000
    ∷ deletes "onb_2"
    ∷ opens "u1" "s1" 3600000 (some "req") "2" 9000001
    ∷ finishes_verification "onb_1" "ws_1" restricted_answers 9000002
    ∷ finishes_bootstrap "onb_1" (answered ready none none) 9000003
    ∷ []

-- The creation and the later parts compute.
created_flow :
    (run opened (finishes_provisioning flow (created "ws_1" "77" "ghi_1") 3000 ∷ [])).flows
    ≡ flow ∷ []
unfolding running_onboarding
created_flow = refl

run-IsTable_example : IsTable (run start opening_calls).flows
run-IsTable_example = run-IsTable start opening_calls tt

provisioned_once_example :
    start_provisioning (run provisioned_state later) "onb_1" "u1" 9000004
    ≡ (run provisioned_state later, workspace_already_exists)
unfolding running_onboarding
provisioned_once_example =
    provisioned_once provisioned_state later flow "ws_1" 9000004 refl refl
      (tt, (tt, (refl, (tt, (tt, (tt, tt))))))

run-IsUnready_example : All (IsUnready "onb_1") (run start opening_calls).flows
run-IsUnready_example = run-IsUnready "onb_1" start opening_calls (tt, (tt, tt)) tt

verify-IsRestricted_example :
    (verify_live_installation_scope restricted_answers ≡ none) ↔ IsRestricted restricted_answers
verify-IsRestricted_example = verify-IsRestricted restricted_answers
