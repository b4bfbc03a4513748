-- ===== src/Onboarding/Store.antt =====
-- OnboardingStore of services/server/src/onboarding/store.ts. Each method is one transaction; the
-- clock is an argument.
use Prim.Native.String
use chief_everything_officer.Base.{
  ℕ, ◌+◌, String, Bool, true, false, Option, none, some, List, [], ◌∷◌, ◌&&◌, ◌==◌, not, ltb, leb,
  is_none, is_some, if◌then◌else◌,
}
use chief_everything_officer.Base.Sql.{find_row, update_rows, insert_row}
use chief_everything_officer.OAuth.Scope.{is_empty}
use chief_everything_officer.Onboarding.{
  FlowState, completed, awaiting_repository_choice, awaiting_github_access, provisioning,
  awaiting_repository_restriction, ready_to_resume, recovery_required, Flow, is_second_active,
  clashes,
}

abbrev pub default_onboarding_ttl_ms : ℕ
default_onboarding_ttl_ms = 3600000

unfoldable pub get_flow : List Flow → String → Option Flow
get_flow flows id = find_row (λ (f : Flow). f.id == id) flows

-- The states that the query of `findActiveFlowForUser` lists.
abbrev pub is_listed : FlowState → Bool
is_listed awaiting_repository_choice = true
is_listed awaiting_github_access = true
is_listed provisioning = true
is_listed awaiting_repository_restriction = true
is_listed ready_to_resume = true
is_listed recovery_required = true
is_listed _ = false

unfoldable pub find_active_flow_for_user : List Flow → String → Option Flow
find_active_flow_for_user flows user_id =
    find_row (λ (f : Flow). f.user_id == user_id && is_listed f.state) flows

-- The states that the query of `getOrCreateActiveFlowInTx` lists, and its row.
abbrev pub is_active : FlowState → Bool
is_active awaiting_repository_choice = true
is_active awaiting_github_access = true
is_active provisioning = true
is_active awaiting_repository_restriction = true
is_active ready_to_resume = true
is_active recovery_required = true
is_active _ = false

unfoldable pub find_active_row : List Flow → String → Option Flow
find_active_row flows user_id =
    find_row (λ (f : Flow). f.user_id == user_id && is_active f.state) flows

-- `undefined` in a patch, or a value.
pub data Field (A : Type 0) : Type 0 where
  keep : Field A
  assign : A → Field A

abbrev pub patched : {A : Type 0} → Field A → A → A
patched keep a = a
patched (assign b) a = b

pub record Patch : Type 0 where
  pub desired_repository_name : Field (Option String)
  pub installation_row_id : Field (Option String)
  pub repository_id : Field (Option String)
  pub workspace_id : Field (Option String)
  pub state : Field FlowState
  pub last_error_code : Field (Option String)
  pub last_error_message : Field (Option String)
  pub host_oauth_request_id : Field (Option String)
  pub expires_at_ms : Field ℕ

abbrev pub no_patch : Patch
no_patch = record {
  desired_repository_name = keep;
  installation_row_id = keep;
  repository_id = keep;
  workspace_id = keep;
  state = keep;
  last_error_code = keep;
  last_error_message = keep;
  host_oauth_request_id = keep;
  expires_at_ms = keep;
}

abbrev pub apply_patch : Patch → ℕ → Flow → Flow
apply_patch p now f = record f {
  desired_repository_name = patched p.desired_repository_name f.desired_repository_name;
  installation_row_id = patched p.installation_row_id f.installation_row_id;
  repository_id = patched p.repository_id f.repository_id;
  workspace_id = patched p.workspace_id f.workspace_id;
  state = patched p.state f.state;
  last_error_code = patched p.last_error_code f.last_error_code;
  last_error_message = patched p.last_error_message f.last_error_message;
  host_oauth_request_id = patched p.host_oauth_request_id f.host_oauth_request_id;
  updated_at_ms = now;
  expires_at_ms = patched p.expires_at_ms f.expires_at_ms;
}

pub data Stored : Type 0 where
  not_found constraint_failed : Stored
  stored : Flow → Stored

-- A row is written in the place of the one with its identifier, unless another row has the place
-- of the user's active flow.
unfoldable pub write_flow : List Flow → Flow → Option (List Flow)
unfolding is_second_active
write_flow flows f =
    elim (find_row (λ (g : Flow). not (g.id == f.id) && is_second_active f g) flows) [
      | some _ ↦ none
      | none ↦ some (update_rows (λ (g : Flow). g.id == f.id) (λ g. f) flows)
    ]

unfoldable pub update_flow : List Flow → String → Patch → ℕ → List Flow × Stored
unfolding get_flow write_flow
update_flow flows id patch now = elim (get_flow flows id) [
  | none ↦ (flows, not_found)
  | some current ↦
      let updated = apply_patch patch now current in
      elim (write_flow flows updated) [
        | none ↦ (flows, constraint_failed)
        | some written ↦ (written, stored updated)
      ]
]

abbrev pub new_flow : String → String → String → ℕ → Option String → ℕ → Flow
new_flow uuid user_id provider_subject ttl_ms host_oauth_request_id now = record {
  id = String.◌++◌ "onb_" uuid;
  user_id = user_id;
  provider_subject = provider_subject;
  desired_repository_name = some "personal-vault";
  installation_row_id = none;
  repository_id = none;
  workspace_id = none;
  state = awaiting_github_access;
  last_error_code = none;
  last_error_message = none;
  host_oauth_request_id = host_oauth_request_id;
  created_at_ms = now;
  updated_at_ms = now;
  expires_at_ms = now + ttl_ms;
}

-- The request of the host is noted on the flow, unless it is absent, empty or noted already.
abbrev pub is_noted : Option String → Option String → Bool
is_noted none current = true
is_noted (some host) none = is_empty host
is_noted (some host) (some current) = if is_empty host then true else current == host

abbrev pub note_host : Option String → ℕ → Flow → Flow
note_host host now f =
    if is_noted host f.host_oauth_request_id
    then f
    else record f { host_oauth_request_id = host; updated_at_ms = now }

-- The active flow is handed out; the returned object keeps its old `updated_at_ms`.
unfoldable pub resume_flow : List Flow → Flow → Option String → ℕ → List Flow × Stored
resume_flow flows f host now = (
  update_rows (λ (g : Flow). g.id == f.id) (note_host host now) flows,
  stored (
      if is_noted host f.host_oauth_request_id
      then f
      else record f { host_oauth_request_id = host }),
)

unfoldable pub insert_flow : List Flow → Flow → List Flow → List Flow × Stored
unfolding clashes
insert_flow flows f before = elim (insert_row clashes f flows) [
  | none ↦ (before, constraint_failed)
  | some inserted ↦ (inserted, stored f)
]

abbrev pub retire : ℕ → Flow → Flow
retire now f = record f { state = completed; updated_at_ms = now }

-- An expired flow without a repository or a workspace makes place for a new one; with either it
-- stays for recovery.
unfoldable pub get_or_create_active_flow_in_tx :
    List Flow → String → String → ℕ → Option String → String → ℕ → List Flow × Stored
unfolding find_active_row resume_flow insert_flow
get_or_create_active_flow_in_tx flows user_id subject ttl_ms host uuid now =
    let fresh = new_flow uuid user_id subject ttl_ms host now in
    elim (find_active_row flows user_id) [
      | none ↦ insert_flow flows fresh flows
      | some f ↦
          if ltb f.expires_at_ms now
          then if is_none f.repository_id && is_none f.workspace_id
            then insert_flow (update_rows (λ (g : Flow). g.id == f.id) (retire now) flows) fresh
                flows
            else resume_flow flows f host now
          else resume_flow flows f host now
    ]

-- `DELETE … WHERE p`.
unfoldable pub delete_rows : (Flow → Bool) → List Flow → List Flow
delete_rows p [] = []
delete_rows p (f ∷ flows) = let rest = delete_rows p flows in if p f then rest else f ∷ rest

unfoldable pub delete_flow : List Flow → String → List Flow × Bool
unfolding delete_rows
delete_flow flows id = (
  delete_rows (λ (f : Flow). f.id == id) flows,
  is_some (find_row (λ (f : Flow). f.id == id) flows),
)

abbrev pub is_stale : ℕ → Flow → Bool
is_stale now f = leb f.expires_at_ms now && (is_none f.repository_id && is_none f.workspace_id)

-- The number of deleted rows is left out.
unfoldable pub cleanup_expired : List Flow → ℕ → List Flow
unfolding delete_rows
cleanup_expired flows now = delete_rows (is_stale now) flows
