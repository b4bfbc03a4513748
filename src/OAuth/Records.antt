-- ===== src/OAuth/Records.antt =====
-- The rows of the four OAuth tables and the database that holds them (services/server/src/oauth/
-- store.ts). A nullable column is an `Option`; a time is a number of milliseconds.
use chief_everything_officer.Base.{ℕ, String, Bool, Option, List, ◌==◌, ◌||◌}

pub data Decision : Type 0 where
  approved denied : Decision

pub record AuthorizationRequest : Type 0 where
  pub id : String
  pub client_id : String
  pub client_name : String
  pub redirect_uri : String
  pub resource : String
  pub scope : String
  pub state : Option String
  pub code_challenge : String
  pub code_challenge_method : String
  pub created_at_ms : ℕ
  pub expires_at_ms : ℕ
  pub decision : Option Decision
  pub user_id : Option String
  pub workspace_id : Option String
  pub consent_nonce_digest : Option String

pub record AuthorizationCode : Type 0 where
  pub id : String
  pub code_digest : String
  pub client_id : String
  pub redirect_uri : String
  pub user_id : String
  pub workspace_id : String
  pub resource : String
  pub scope : String
  pub code_challenge : String
  pub issued_at_ms : ℕ
  pub expires_at_ms : ℕ
  pub consumed_at_ms : Option ℕ

pub record AccessToken : Type 0 where
  pub id : String
  pub token_digest : String
  pub client_id : String
  pub user_id : String
  pub workspace_id : String
  pub resource : String
  pub scope : String
  pub issued_at_ms : ℕ
  pub expires_at_ms : ℕ
  pub revoked_at_ms : Option ℕ

pub record RefreshToken : Type 0 where
  pub id : String
  pub token_digest : String
  pub family_id : String
  pub client_id : String
  pub user_id : String
  pub workspace_id : String
  pub resource : String
  pub scope : String
  pub issued_at_ms : ℕ
  pub expires_at_ms : ℕ
  pub consumed_at_ms : Option ℕ
  pub revoked_at_ms : Option ℕ

pub record OAuthDb : Type 0 where
  pub requests : List AuthorizationRequest
  pub codes : List AuthorizationCode
  pub access_tokens : List AccessToken
  pub refresh_tokens : List RefreshToken

-- The PRIMARY KEY and UNIQUE columns of each table: two rows that may not stand together.
abbrev pub same_request : AuthorizationRequest → AuthorizationRequest → Bool
same_request a b = b.id == a.id

abbrev pub same_code : AuthorizationCode → AuthorizationCode → Bool
same_code a b = b.id == a.id || b.code_digest == a.code_digest

abbrev pub same_access_token : AccessToken → AccessToken → Bool
same_access_token a b = b.id == a.id || b.token_digest == a.token_digest

abbrev pub same_refresh_token : RefreshToken → RefreshToken → Bool
same_refresh_token a b = b.id == a.id || b.token_digest == a.token_digest
