-- ===== src/OAuth/Grants/Access.antt =====
-- The token check: which access tokens are valid.
use chief_everything_officer.Base.{
  ℕ, String, true, inl, inr, none, some, ◌≡◌, ◌↔◌, arith, ◌==◌, ◌<◌, eq_iff, Option-cases, eq_refl,
  subst,
}
use chief_everything_officer.Base.Sql.{find_row, insert_row}
use chief_everything_officer.Base.Sql.Laws.{find_row-insert}
use chief_everything_officer.Identity.{IdentityDb, is_user_active, has_workspace_access}
use chief_everything_officer.OAuth.Records.{
  AuthorizationCode, AccessToken, OAuthDb, same_access_token,
}
use chief_everything_officer.OAuth.Store.{ok}
use chief_everything_officer.OAuth.Tokens.{
  ConsumeInput, Issued, exchanged_access_token, find_access_token_by_digest, insert_tokens,
  consume_code, exchange_issued, consume_code_and_issue_tokens,
}
use chief_everything_officer.OAuth.Scope.{has, split_spaces}
use chief_everything_officer.OAuth.Grants.Exchange.{insert_tokens-ok}
use chief_everything_officer.OAuth.Service.{Env, Config}
use chief_everything_officer.OAuth.Service.Grant.{valid, validate_record, validate_access_token}

-- What the check wants of a token's row.
pub record IsAccepted (cfg : Config) (identity : IdentityDb) (now : ℕ) (t : AccessToken)
    : Type 0 where
  pub unrevoked : t.revoked_at_ms ≡ none
  pub unexpired : now < t.expires_at_ms
  pub same_resource : t.resource ≡ cfg.canonical_resource
  pub has_mcp : has (split_spaces t.scope) "mcp" ≡ true
  pub active : is_user_active identity t.user_id ≡ true
  pub member : has_workspace_access identity t.workspace_id t.user_id ≡ true

validate_record-valid :
    (cfg : Config) (identity : IdentityDb) (t s : AccessToken) (now : ℕ)
    → (validate_record cfg identity t now ≡ valid s) ↔ ((t ≡ s) × IsAccepted cfg identity now t)
unfolding validate_record
validate_record-valid cfg identity t s now = (
  λ h. ground (arith, eq_iff t.resource cfg.canonical_resource),
  λ h. ground (arith, eq_iff t.resource cfg.canonical_resource),
)

-- A token is valid exactly when its row is there, unrevoked, unexpired, for this resource, with the
-- scope "mcp", and its user is active and owns the workspace.
pub validate-valid :
    (env : Env) (cfg : Config) (identity : IdentityDb) (db : OAuthDb) (token : String) (now : ℕ)
    (t : AccessToken)
    → (validate_access_token env cfg identity db token now ≡ valid t) ↔ (
        (find_access_token_by_digest db (env.sha256_hex token) ≡ some t)
        × IsAccepted cfg identity now t)
unfolding validate_access_token
validate-valid env cfg identity db token now t =
    elim (Option-cases (find_access_token_by_digest db (env.sha256_hex token))) [
      | inl e ↦ (λ h. absurd (ground arith), λ h. absurd (ground arith))
      | inr (s, e) ↦ (
        λ h.
            let k = (validate_record-valid cfg identity s t now).0 (ground arith) in
            (rw (← k.0) e, subst (IsAccepted cfg identity now) k.0 k.1),
        λ h. ground (arith, (validate_record-valid cfg identity s t now).1),
      )
    ]

insert_tokens-found :
    {A : Type 0} (before db : OAuthDb) (i : Issued A) {j : Issued A}
    → (insert_tokens before db i).0 ≡ ok j
    → find_row
        (λ (t : AccessToken). t.token_digest == i.access_token.token_digest)
        (insert_tokens before db i).1.access_tokens
      ≡ some i.access_token
unfolding insert_tokens
insert_tokens-found before db i h =
    elim (Option-cases (insert_row same_access_token i.access_token db.access_tokens)) [
      | inl e ↦ absurd (ground arith)
      | inr (rows, e) ↦ ground (
        arith,
        find_row-insert same_access_token
            (λ (t : AccessToken). t.token_digest == i.access_token.token_digest) i.access_token
            db.access_tokens (λ x k. ground arith) (eq_refl i.access_token.token_digest) e,
      )
    ]

-- The access token of a successful exchange is found by its digest.
pub exchange-found :
    (s256 : String → String) (db : OAuthDb) (input : ConsumeInput)
    {issued : Issued AuthorizationCode}
    → (consume_code_and_issue_tokens s256 db input).0 ≡ ok issued
    → find_row
        (λ (t : AccessToken). t.token_digest == input.access_token_digest)
        (consume_code_and_issue_tokens s256 db input).1.access_tokens
      ≡ some (exchanged_access_token input issued.from)
unfolding consume_code_and_issue_tokens
exchange-found s256 db input {issued} h =
    elim (Option-cases
      (find_row (λ (c : AuthorizationCode). c.code_digest == input.code_digest) db.codes)) [
        | inl e ↦ absurd (ground arith)
        | inr (code, e) ↦ ground (
          arith,
          insert_tokens-ok db (consume_code db input code) (exchange_issued input code)
              {j = issued},
          insert_tokens-found db (consume_code db input code) (exchange_issued input code)
              {j = issued},
        )
      ]
