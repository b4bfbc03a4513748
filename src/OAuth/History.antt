-- ===== src/OAuth/History.antt =====
-- Sequences of calls on the store of services/server/src/oauth/store.ts: every method that writes.
pub mod Codes
pub mod Families
pub mod Retired
pub mod Live
pub mod Decisions
use chief_everything_officer.Base.{ℕ, String, List, [], ◌∷◌}
use chief_everything_officer.OAuth.Records.{AuthorizationRequest, OAuthDb}
use chief_everything_officer.OAuth.Store.{
  ApproveInput, create_authorization_request, set_consent_nonce_digest,
  approve_consent_and_issue_code, deny_consent,
}
use chief_everything_officer.OAuth.Tokens.{
  ConsumeInput, RotateInput, consume_code_and_issue_tokens, rotate_refresh_token_and_issue_tokens,
  revoke_refresh_token_family,
}

pub data StoreCall : Type 0 where
  creates : AuthorizationRequest → StoreCall
  sets_nonce denies : String → String → ℕ → StoreCall
  approves : ApproveInput → StoreCall
  consumes : ConsumeInput → StoreCall
  rotates : RotateInput → StoreCall
  revokes : String → ℕ → StoreCall

unfoldable pub step : (String → String) → OAuthDb → StoreCall → OAuthDb
step s256 db (creates r) = (create_authorization_request db r).1
step s256 db (sets_nonce id nonce now) = (set_consent_nonce_digest db id nonce now).1
step s256 db (denies id nonce now) = (deny_consent db id nonce now).1
step s256 db (approves input) = (approve_consent_and_issue_code db input).1
step s256 db (consumes input) = (consume_code_and_issue_tokens s256 db input).1
step s256 db (rotates input) = (rotate_refresh_token_and_issue_tokens db input).1
step s256 db (revokes family now) = revoke_refresh_token_family db family now

unfoldable pub run : (String → String) → OAuthDb → List StoreCall → OAuthDb
run s256 db [] = db
run s256 db (c ∷ cs) = run s256 (step s256 db c) cs
