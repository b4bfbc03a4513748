-- ===== src/OAuth/Service/Consent.antt =====
-- Authorization requests and consent: the first five methods of OAuthService in
-- services/server/src/oauth/service.ts.
use chief_everything_officer.Base.{
  ℕ, String, not, Option, none, some, List, [], ◌∷◌, ◌&&◌, ◌==◌, leb, ◌+◌, if◌then◌else◌,
}
use chief_everything_officer.Identity.{
  IdentityDb, Membership, is_user_active, list_workspace_memberships_for_user,
  is_workspace_ready_for_host,
}
use chief_everything_officer.OAuth.Records.{AuthorizationRequest, AuthorizationCode, OAuthDb}
use chief_everything_officer.OAuth.Store.{
  Outcome, ok, fail, ApproveInput, create_authorization_request, get_authorization_request,
  set_consent_nonce_digest, approve_consent_and_issue_code, deny_consent,
}
use chief_everything_officer.OAuth.Scope.{Scoped, scope, rejected, is_empty, has, requested_scope}
use chief_everything_officer.OAuth.Service.{
  Result, return, throw, server, uncaught, unsupported_response_type, invalid_request,
  invalid_client, server_error, invalid_scope, access_denied, ClientMetadata, Resolution, resolved,
  unavailable_client, invalid_client_id, unexpected, Env, Config, validate_canonical_resource,
}
use chief_everything_officer.OAuth.Service.Monad.{M, ◌>>=◌, ◌>>◌, lift, check, found, call}

pub record InitiateInput : Type 0 where
  pub client_id : String
  pub redirect_uri : String
  pub response_type : String
  pub scope : Option String
  pub state : Option String
  pub code_challenge : String
  pub code_challenge_method : String
  pub resource : Option String

abbrev pub client_of : Resolution → Result ClientMetadata
client_of (resolved m) = return m
client_of unavailable_client = throw (server server_error 503)
client_of invalid_client_id = throw (server invalid_client 400)
client_of unexpected = throw uncaught

abbrev pub scope_of : Scoped → Result String
scope_of (scope s) = return s
scope_of (rejected e) = throw (server invalid_scope 400)

-- The row that a request inserts.
abbrev pub request_of :
    Config → InitiateInput → ClientMetadata → String → String → String → ℕ → AuthorizationRequest
request_of cfg input client target final_scope request_id now = record {
  id = request_id;
  client_id = input.client_id;
  client_name = client.client_name;
  redirect_uri = input.redirect_uri;
  resource = target;
  scope = final_scope;
  state = input.state;
  code_challenge = input.code_challenge;
  code_challenge_method = input.code_challenge_method;
  created_at_ms = now;
  expires_at_ms = now + cfg.auth_request_ttl_ms;
  decision = none;
  user_id = none;
  workspace_id = none;
  consent_nonce_digest = none;
}

-- `request_id` is the fresh identifier, `now` the clock.
unfoldable pub initiate_authorization_request :
    Env → Config → InitiateInput → String → ℕ → M (AuthorizationRequest × ClientMetadata)
initiate_authorization_request env cfg input request_id now = do
  check (input.response_type == "code") (server unsupported_response_type 400)
  check (not (is_empty input.code_challenge) && input.code_challenge_method == "S256")
      (server invalid_request 400)
  target ← lift (validate_canonical_resource env input.resource cfg.canonical_resource)
  client ← lift (client_of (env.resolve input.client_id))
  check (has client.redirect_uris input.redirect_uri) (server invalid_request 400)
  final_scope ← lift (scope_of (requested_scope input.scope))
  _ ← call (λ db.
      create_authorization_request db
        (request_of cfg input client target final_scope request_id now))
  request ← (λ db. found (get_authorization_request db request_id) (server server_error 500) db)
  lift (return (request, client))

unfoldable pub get_live_request : String → ℕ → OAuthDb → Option AuthorizationRequest
get_live_request request_id now db = elim (get_authorization_request db request_id) [
  | none ↦ none
  | some req ↦ if leb req.expires_at_ms now then none else some req
]

-- `nonce` is the fresh random value that the page posts back.
unfoldable pub create_consent_nonce : Env → String → String → ℕ → M String
create_consent_nonce env request_id nonce now db =
    let (updated, db') = set_consent_nonce_digest db request_id (env.sha256_hex nonce) now in
    if updated then (return nonce, db') else (throw (server invalid_request 400), db')

pub record Approval : Type 0 where
  pub code : String
  pub redirect_uri : String
  pub state : Option String

abbrev pub state_of : Option AuthorizationRequest → Option String
state_of none = none
state_of (some req) = req.state

abbrev pub approved_code : Outcome (Option AuthorizationCode) → Option AuthorizationCode
approved_code (ok c) = c
approved_code (fail e) = none

-- A user needs exactly one workspace.
abbrev pub only_workspace : List Membership → Result String
only_workspace [] = throw (server access_denied 403)
only_workspace (m ∷ []) = return m.workspace_id
only_workspace (m ∷ n ∷ ms) = throw (server access_denied 403)

abbrev pub approve_input :
    Env → Config → String → String → String → String → String → String → ℕ → ApproveInput
approve_input env cfg request_id nonce user_id workspace_id raw_code code_id now = record {
  request_id = request_id;
  nonce_digest = env.sha256_hex nonce;
  user_id = user_id;
  workspace_id = workspace_id;
  code_id = code_id;
  code_digest = env.sha256_hex raw_code;
  now_ms = now;
  code_expires_at_ms = now + cfg.auth_code_ttl_ms;
}

-- `raw_code` and `code_id` are the fresh random values.
unfoldable pub approve_consent :
    Env → Config → IdentityDb → String → String → String → String → String → ℕ → M Approval
approve_consent env cfg identity request_id nonce user_id raw_code code_id now = do
  check (is_user_active identity user_id) (server access_denied 403)
  workspace_id ←
      lift (only_workspace (list_workspace_memberships_for_user identity.memberships user_id))
  check (is_workspace_ready_for_host identity workspace_id) (server access_denied 403)
  issued ← call (λ db.
      approve_consent_and_issue_code db
        (approve_input env cfg request_id nonce user_id workspace_id raw_code code_id now))
  record_ ← found (approved_code issued) (server invalid_request 400)
  (λ db. (
    return (record {
      code = raw_code;
      redirect_uri = record_.redirect_uri;
      state = state_of (get_authorization_request db request_id);
    }),
    db,
  ))

unfoldable pub deny_consent_request : Env → String → String → ℕ → M (String × Option String)
deny_consent_request env request_id nonce now db = elim (get_authorization_request db request_id) [
  | none ↦ (throw (server invalid_request 400), db)
  | some req ↦
      let (denied, db') = deny_consent db request_id (env.sha256_hex nonce) now in
      if denied
      then (return (req.redirect_uri, req.state), db')
      else (throw (server invalid_request 400), db')
]
