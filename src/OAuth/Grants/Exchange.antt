-- ===== src/OAuth/Grants/Exchange.antt =====
-- The exchange of an authorization code: when it succeeds, and what a refusal leaves.
use chief_everything_officer.Base.{
  String, inl, inr, none, some, ◌≡◌, refl, arith, ◌==◌, ◌<◌, eq_iff, Option-cases,
}
use chief_everything_officer.Base.Sql.{find_row}
use chief_everything_officer.OAuth.Records.{AuthorizationCode, AccessToken, RefreshToken, OAuthDb}
use chief_everything_officer.OAuth.Store.{StoreError, ok, fail}
use chief_everything_officer.OAuth.Tokens.{
  ConsumeInput, consume_code, exchange_issued, Issued, exchanged_access_token,
  exchanged_refresh_token, insert_tokens, consume_code_and_issue_tokens,
}

-- What an exchange checks of the code that it finds.
pub record MayExchange (s256 : String → String) (input : ConsumeInput) (code : AuthorizationCode)
    : Type 0 where
  pub unconsumed : code.consumed_at_ms ≡ none
  pub unexpired : input.now_ms < code.expires_at_ms
  pub same_client : code.client_id ≡ input.client_id
  pub same_redirect : code.redirect_uri ≡ input.redirect_uri
  pub same_resource : code.resource ≡ input.resource
  pub proof_key : s256 input.code_verifier ≡ code.code_challenge

-- The two tokens are the code's: its client, user, workspace, resource and scope, issued now, each
-- with the digest and the expiry that were asked for, unrevoked and unconsumed.
pub record BelongsTo (input : ConsumeInput) (code : AuthorizationCode) (a : AccessToken)
    (r : RefreshToken) : Type 0 where
  pub clients : (a.client_id ≡ code.client_id) × (r.client_id ≡ code.client_id)
  pub users : (a.user_id ≡ code.user_id) × (r.user_id ≡ code.user_id)
  pub workspaces : (a.workspace_id ≡ code.workspace_id) × (r.workspace_id ≡ code.workspace_id)
  pub resources : (a.resource ≡ code.resource) × (r.resource ≡ code.resource)
  pub scopes : (a.scope ≡ code.scope) × (r.scope ≡ code.scope)
  pub issued : (a.issued_at_ms ≡ input.now_ms) × (r.issued_at_ms ≡ input.now_ms)
  pub digests :
      (a.token_digest ≡ input.access_token_digest) × (r.token_digest ≡ input.refresh_token_digest)
  pub expiries :
      (a.expires_at_ms ≡ input.access_token_expires_at_ms)
      × (r.expires_at_ms ≡ input.refresh_token_expires_at_ms)
  pub family : r.family_id ≡ input.refresh_token_family_id
  pub unused : (a.revoked_at_ms ≡ none) × (r.revoked_at_ms ≡ none) × (r.consumed_at_ms ≡ none)

exchanged-BelongsTo :
    (input : ConsumeInput) (code : AuthorizationCode)
    → BelongsTo input code (exchanged_access_token input code) (exchanged_refresh_token input code)
exchanged-BelongsTo input code = record {
  clients = (refl, refl);
  users = (refl, refl);
  workspaces = (refl, refl);
  resources = (refl, refl);
  scopes = (refl, refl);
  issued = (refl, refl);
  digests = (refl, refl);
  expiries = (refl, refl);
  family = refl;
  unused = (refl, refl, refl);
}

pub insert_tokens-ok :
    {A : Type 0} (before db : OAuthDb) (i : Issued A) {j : Issued A}
    → (insert_tokens before db i).0 ≡ ok j
    → i ≡ j
unfolding insert_tokens
insert_tokens-ok before db i h = ground arith

-- What the guards of an exchange that succeeds have tested, and the rows that it inserts.
pub exchange-checks :
    (s256 : String → String) (db : OAuthDb) (input : ConsumeInput)
    {issued : Issued AuthorizationCode}
    → (consume_code_and_issue_tokens s256 db input).0 ≡ ok issued
    → (find_row (λ (c : AuthorizationCode). c.code_digest == input.code_digest) db.codes
        ≡ some issued.from)
      × MayExchange s256 input issued.from
      × (issued.access_token ≡ exchanged_access_token input issued.from)
      × (issued.refresh_token ≡ exchanged_refresh_token input issued.from)
unfolding consume_code_and_issue_tokens
exchange-checks s256 db input {issued} h =
    elim (Option-cases
      (find_row (λ (c : AuthorizationCode). c.code_digest == input.code_digest) db.codes)) [
        | inl e ↦ absurd (ground arith)
        | inr (code, e) ↦ ground (
          arith,
          eq_iff code.client_id input.client_id,
          eq_iff code.redirect_uri input.redirect_uri,
          eq_iff code.resource input.resource,
          eq_iff (s256 input.code_verifier) code.code_challenge,
          insert_tokens-ok db (consume_code db input code) (exchange_issued input code)
              {j = issued},
        )
      ]

-- A successful exchange found the code of the digest, unconsumed and unexpired, for the same client,
-- redirect and resource, with a verifier that hashes to its challenge; both tokens that it issues
-- have the code's client, user, workspace, resource and scope, the digests, the family and the expiries
-- of the request, and its time as that of their issue, and neither is revoked or consumed.
pub exchange-MayExchange :
    (s256 : String → String) (db : OAuthDb) (input : ConsumeInput)
    {issued : Issued AuthorizationCode}
    → (consume_code_and_issue_tokens s256 db input).0 ≡ ok issued
    → (find_row (λ (c : AuthorizationCode). c.code_digest == input.code_digest) db.codes
        ≡ some issued.from)
      × MayExchange s256 input issued.from
      × BelongsTo input issued.from issued.access_token issued.refresh_token
exchange-MayExchange s256 db input {issued} h =
    let (found, may, access, refresh) = exchange-checks s256 db input h in
    (found, may, rw (access, refresh) (exchanged-BelongsTo input issued.from))

insert_tokens-fail :
    {A : Type 0} (before db : OAuthDb) (i : Issued A) {e : StoreError}
    → (insert_tokens before db i).0 ≡ fail e
    → (insert_tokens before db i).1 ≡ before
unfolding insert_tokens
insert_tokens-fail before db i h = ground arith

-- A refused exchange leaves the whole database as it was.
pub exchange-fail :
    (s256 : String → String) (db : OAuthDb) (input : ConsumeInput) {e : StoreError}
    → (consume_code_and_issue_tokens s256 db input).0 ≡ fail e
    → (consume_code_and_issue_tokens s256 db input).1 ≡ db
unfolding consume_code_and_issue_tokens
exchange-fail s256 db input {e} h = grind (arith, insert_tokens-fail)
