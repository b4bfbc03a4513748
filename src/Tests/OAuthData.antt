-- ===== src/Tests/OAuthData.antt =====
-- A small OAuth database: a pending request, a code, a consumed refresh token and its child.
use chief_everything_officer.Base.{String, none, some, [], ◌∷◌}
use chief_everything_officer.Identity.{IdentityDb}
use chief_everything_officer.OAuth.Records.{
  AuthorizationRequest, AuthorizationCode, AccessToken, RefreshToken, OAuthDb,
}
use chief_everything_officer.OAuth.Store.{ApproveInput}
use chief_everything_officer.OAuth.Tokens.{ConsumeInput, RotateInput}
use chief_everything_officer.OAuth.Service.{Url, Env, Config, resolved}
use chief_everything_officer.OAuth.Service.Grant.{Fresh, ExchangeInput, RefreshInput}

abbrev pub same : String → String
same s = s

abbrev pub url : Url
url = record {
  origin = "https://ceo";
  pathname = "/mcp";
  search = "";
  hash = "";
  username = "";
  password = "";
}

-- Hashes that keep the text, and a parser that knows one URL.
abbrev pub env : Env
env = record {
  s256 = same;
  sha256_hex = same;
  parse_url = λ s. some url;
  resolve = λ s. resolved (record { client_name = "Host"; redirect_uris = "https://host/cb" ∷ [] });
}

abbrev pub cfg : Config
cfg = record {
  canonical_resource = "https://ceo/mcp";
  auth_code_ttl_ms = 300000;
  auth_request_ttl_ms = 600000;
  access_token_ttl_ms = 3600000;
  refresh_token_ttl_ms = 2592000000;
}

abbrev pub identity : IdentityDb
identity = record {
  users = record { id = "u1"; disabled_at = none } ∷ [];
  memberships = record { workspace_id = "w1"; user_id = "u1"; role = "owner"; created_at = 1 } ∷ [];
  bindings = [];
  bootstraps = [];
  workspaces = "w1" ∷ [];
}

abbrev pub request : AuthorizationRequest
request = record {
  id = "oar_1";
  client_id = "client";
  client_name = "Host";
  redirect_uri = "https://host/cb";
  resource = "https://ceo/mcp";
  scope = "mcp offline_access";
  state = none;
  code_challenge = "verifier";
  code_challenge_method = "S256";
  created_at_ms = 10;
  expires_at_ms = 600010;
  decision = none;
  user_id = none;
  workspace_id = none;
  consent_nonce_digest = some "nonce";
}

abbrev pub code : AuthorizationCode
code = record {
  id = "cd_1";
  code_digest = "oac_1";
  client_id = "client";
  redirect_uri = "https://host/cb";
  user_id = "u1";
  workspace_id = "w1";
  resource = "https://ceo/mcp";
  scope = "mcp offline_access";
  code_challenge = "verifier";
  issued_at_ms = 20;
  expires_at_ms = 300020;
  consumed_at_ms = none;
}

abbrev pub used_token : RefreshToken
used_token = record {
  id = "rt_0";
  token_digest = "ceo_rt_0";
  family_id = "fam_0";
  client_id = "client";
  user_id = "u1";
  workspace_id = "w1";
  resource = "https://ceo/mcp";
  scope = "mcp offline_access";
  issued_at_ms = 5;
  expires_at_ms = 2592000005;
  consumed_at_ms = some 15;
  revoked_at_ms = none;
}

abbrev pub live_token : RefreshToken
live_token = record used_token {
  id = "rt_1";
  token_digest = "ceo_rt_1";
  issued_at_ms = 15;
  consumed_at_ms = none;
}

abbrev pub access_token : AccessToken
access_token = record {
  id = "at_1";
  token_digest = "ceo_at_1";
  client_id = "client";
  user_id = "u1";
  workspace_id = "w1";
  resource = "https://ceo/mcp";
  scope = "mcp";
  issued_at_ms = 15;
  expires_at_ms = 3600015;
  revoked_at_ms = none;
}

abbrev pub db : OAuthDb
db = record {
  requests = request ∷ [];
  codes = code ∷ [];
  access_tokens = access_token ∷ [];
  refresh_tokens = used_token ∷ live_token ∷ [];
}

abbrev pub approve_one : ApproveInput
approve_one = record {
  request_id = "oar_1";
  nonce_digest = "nonce";
  user_id = "u1";
  workspace_id = "w1";
  code_id = "cd_2";
  code_digest = "oac_2";
  now_ms = 30;
  code_expires_at_ms = 300030;
}

abbrev pub exchange_one : ConsumeInput
exchange_one = record {
  code_digest = "oac_1";
  client_id = "client";
  redirect_uri = "https://host/cb";
  resource = "https://ceo/mcp";
  code_verifier = "verifier";
  access_token_id = "at_2";
  access_token_digest = "ceo_at_2";
  access_token_expires_at_ms = 3600040;
  refresh_token_id = "rt_2";
  refresh_token_digest = "ceo_rt_2";
  refresh_token_family_id = "fam_2";
  refresh_token_expires_at_ms = 2592000040;
  now_ms = 40;
}

abbrev pub rotate_one : RotateInput
rotate_one = record {
  old_token_digest = "ceo_rt_1";
  client_id = "client";
  resource = "https://ceo/mcp";
  new_scope = "mcp";
  access_token_id = "at_3";
  access_token_digest = "ceo_at_3";
  access_token_expires_at_ms = 3600050;
  new_refresh_token_id = "rt_3";
  new_refresh_token_digest = "ceo_rt_3";
  new_refresh_token_expires_at_ms = 2592000050;
  now_ms = 50;
}

abbrev pub fresh : Fresh
fresh = record {
  raw_access_token = "ceo_at_2";
  access_token_id = "at_2";
  raw_refresh_token = "ceo_rt_2";
  refresh_token_id = "rt_2";
  family_id = "fam_2";
}

abbrev pub exchange_request : ExchangeInput
exchange_request = record {
  client_id = "client";
  redirect_uri = "https://host/cb";
  code = "oac_1";
  code_verifier = "verifier";
  resource = some "https://ceo/mcp";
}

abbrev pub refresh_request : RefreshInput
refresh_request = record {
  client_id = "client";
  refresh_token = "ceo_rt_1";
  scope = some " mcp ";
  resource = some "https://ceo/mcp";
}

abbrev pub replay_request : RefreshInput
replay_request = record refresh_request { refresh_token = "ceo_rt_0" }
