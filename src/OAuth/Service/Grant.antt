-- ===== src/OAuth/Service/Grant.antt =====
-- The token endpoint and the token check: the last three methods of OAuthService in
-- services/server/src/oauth/service.ts. The fresh identifiers and random values of a call are one
-- record.
use chief_everything_officer.Base.{
  ℕ, String, not, Option, none, some, ◌||◌, ◌==◌, leb, is_some, ◌+◌, ◌/◌, if◌then◌else◌,
}
use chief_everything_officer.Identity.{IdentityDb, is_user_active, has_workspace_access}
use chief_everything_officer.OAuth.Records.{AccessToken, RefreshToken, OAuthDb}
use chief_everything_officer.OAuth.Store.{
  Outcome, ok, fail, invalid_grant, invalid_target, unavailable,
}
use chief_everything_officer.OAuth.Tokens.{
  ConsumeInput, RotateInput, Issued, consume_code_and_issue_tokens, find_refresh_token_by_digest,
  find_access_token_by_digest, rotate_refresh_token_and_issue_tokens, revoke_refresh_token_family,
}
use chief_everything_officer.OAuth.Scope.{is_empty, has, split_spaces, narrowed_scope}
use chief_everything_officer.OAuth.Service.{
  ErrorCode, ServiceError, Result, return, throw, server, uncaught, invalid_request, invalid_scope,
  Env, Config, validate_canonical_resource,
}
use chief_everything_officer.OAuth.Service.Monad.{M, ◌>>=◌, ◌>>◌, lift, raise, check, found, call}

pub record Fresh : Type 0 where
  pub raw_access_token : String
  pub access_token_id : String
  pub raw_refresh_token : String
  pub refresh_token_id : String
  pub family_id : String

pub record TokenResponse : Type 0 where
  pub access_token : String
  pub expires_in : ℕ
  pub refresh_token : String
  pub scope : String

pub record ExchangeInput : Type 0 where
  pub client_id : String
  pub redirect_uri : String
  pub code : String
  pub code_verifier : String
  pub resource : Option String

abbrev pub bad_grant : ServiceError
bad_grant = server ErrorCode.invalid_grant 400

abbrev pub bad_target : ServiceError
bad_target = server ErrorCode.invalid_target 400

-- What the service makes of the store's answer.
abbrev pub issued_or_throw : {A : Type 0} → Outcome (Issued A) → Result (Issued A)
issued_or_throw (ok issued) = return issued
issued_or_throw (fail invalid_target) = throw bad_target
issued_or_throw (fail invalid_grant) = throw bad_grant
issued_or_throw (fail unavailable) = throw uncaught

abbrev pub consume_input : Env → Config → ExchangeInput → String → Fresh → ℕ → ConsumeInput
consume_input env cfg input target fresh now = record {
  code_digest = env.sha256_hex input.code;
  client_id = input.client_id;
  redirect_uri = input.redirect_uri;
  resource = target;
  code_verifier = input.code_verifier;
  access_token_id = fresh.access_token_id;
  access_token_digest = env.sha256_hex fresh.raw_access_token;
  access_token_expires_at_ms = now + cfg.access_token_ttl_ms;
  refresh_token_id = fresh.refresh_token_id;
  refresh_token_digest = env.sha256_hex fresh.raw_refresh_token;
  refresh_token_family_id = fresh.family_id;
  refresh_token_expires_at_ms = now + cfg.refresh_token_ttl_ms;
  now_ms = now;
}

abbrev pub token_response : Config → Fresh → String → TokenResponse
token_response cfg fresh scope = record {
  access_token = fresh.raw_access_token;
  expires_in = cfg.access_token_ttl_ms / 1000;
  refresh_token = fresh.raw_refresh_token;
  scope = scope;
}

unfoldable pub exchange_authorization_code :
    Env → Config → ExchangeInput → Fresh → ℕ → M TokenResponse
exchange_authorization_code env cfg input fresh now = do
  check
      (not (
        is_empty input.code
        || (is_empty input.code_verifier
            || (is_empty input.client_id || is_empty input.redirect_uri))))
      (server invalid_request 400)
  target ← lift (validate_canonical_resource env input.resource cfg.canonical_resource)
  result ← call (λ db.
      consume_code_and_issue_tokens env.s256 db (consume_input env cfg input target fresh now))
  issued ← lift (issued_or_throw result)
  lift (return (token_response cfg fresh issued.from.scope))

pub record RefreshInput : Type 0 where
  pub client_id : String
  pub refresh_token : String
  pub scope : Option String
  pub resource : Option String

abbrev pub rotate_input : Env → Config → RefreshInput → String → String → Fresh → ℕ → RotateInput
rotate_input env cfg input target new_scope fresh now = record {
  old_token_digest = env.sha256_hex input.refresh_token;
  client_id = input.client_id;
  resource = target;
  new_scope = new_scope;
  access_token_id = fresh.access_token_id;
  access_token_digest = env.sha256_hex fresh.raw_access_token;
  access_token_expires_at_ms = now + cfg.access_token_ttl_ms;
  new_refresh_token_id = fresh.refresh_token_id;
  new_refresh_token_digest = env.sha256_hex fresh.raw_refresh_token;
  new_refresh_token_expires_at_ms = now + cfg.refresh_token_ttl_ms;
  now_ms = now;
}

-- `revokeRefreshTokenFamily` and then `throw`.
abbrev pub revoke_and_throw : {A : Type 0} → String → ℕ → M A
revoke_and_throw family now db = (throw bad_grant, revoke_refresh_token_family db family now)

-- From the scope check on: the identity is known to be good.
unfoldable pub rotate_tokens :
    Env → Config → RefreshInput → RefreshToken → String → Fresh → ℕ → M TokenResponse
rotate_tokens env cfg input existing target fresh now = do
  new_scope ← found (narrowed_scope existing.scope input.scope) (server invalid_scope 400)
  result ← call (λ db.
      rotate_refresh_token_and_issue_tokens db
        (rotate_input env cfg input target new_scope fresh now))
  issued ← lift (issued_or_throw result)
  lift (return (token_response cfg fresh new_scope))

unfoldable pub refresh_existing :
    Env → Config → IdentityDb → RefreshInput → RefreshToken → Fresh → ℕ → M TokenResponse
refresh_existing env cfg identity input existing fresh now =
    if is_some existing.consumed_at_ms
    then revoke_and_throw existing.family_id now
    else if is_some existing.revoked_at_ms || leb existing.expires_at_ms now
    then raise bad_grant
    else if not (existing.client_id == input.client_id)
    then raise bad_grant
    else do
      target ← lift (validate_canonical_resource env input.resource existing.resource)
      if not (is_user_active identity existing.user_id)
            || not (has_workspace_access identity existing.workspace_id existing.user_id)
          then revoke_and_throw existing.family_id now
          else rotate_tokens env cfg input existing target fresh now

unfoldable pub refresh_tokens :
    Env → Config → IdentityDb → RefreshInput → Fresh → ℕ → M TokenResponse
refresh_tokens env cfg identity input fresh now = do
  check (not (is_empty input.refresh_token || is_empty input.client_id))
      (server invalid_request 400)
  existing ← (λ db.
      found (find_refresh_token_by_digest db (env.sha256_hex input.refresh_token)) bad_grant db)
  refresh_existing env cfg identity input existing fresh now

pub data TokenCheck : Type 0 where
  valid : AccessToken → TokenCheck
  invalid_token insufficient_scope wrong_target : TokenCheck

unfoldable pub validate_record : Config → IdentityDb → AccessToken → ℕ → TokenCheck
validate_record cfg identity t now =
    if is_some t.revoked_at_ms
    then invalid_token
    else if leb t.expires_at_ms now
    then invalid_token
    else if not (t.resource == cfg.canonical_resource)
    then wrong_target
    else if not (has (split_spaces t.scope) "mcp")
    then insufficient_scope
    else if not (is_user_active identity t.user_id)
    then invalid_token
    else if not (has_workspace_access identity t.workspace_id t.user_id)
    then invalid_token
    else valid t

unfoldable pub validate_access_token : Env → Config → IdentityDb → OAuthDb → String → ℕ → TokenCheck
unfolding validate_record
validate_access_token env cfg identity db token now =
    elim (find_access_token_by_digest db (env.sha256_hex token)) [
      | none ↦ invalid_token
      | some t ↦ validate_record cfg identity t now
    ]
