-- ===== src/OAuth/Grants/Issue.antt =====
-- The token endpoint's exchange down to the store, and the access token that it hands out.
use chief_everything_officer.Base.{
  ℕ, String, true, Option, inl, inr, some, ◌≡◌, refl, arith, ◌==◌, ◌<◌, ◌+◌, sym, ◌∙◌, ap,
}
use chief_everything_officer.Base.Sql.{find_row}
use chief_everything_officer.Identity.{IdentityDb, is_user_active, has_workspace_access}
use chief_everything_officer.OAuth.Records.{AuthorizationCode, OAuthDb}
use chief_everything_officer.OAuth.Store.{ok, Outcome-cases}
use chief_everything_officer.OAuth.Tokens.{
  ConsumeInput, Issued, exchanged_access_token, find_access_token_by_digest,
  consume_code_and_issue_tokens,
}
use chief_everything_officer.OAuth.Scope.{has, split_spaces}
use chief_everything_officer.OAuth.Service.{
  Env, Config, return, Result-cases, validate_canonical_resource,
}
use chief_everything_officer.OAuth.Service.Grant.{
  Fresh, ExchangeInput, TokenResponse, valid, consume_input, token_response,
  exchange_authorization_code, validate_access_token,
}
use chief_everything_officer.OAuth.Grants.Exchange.{exchange-checks}
use chief_everything_officer.OAuth.Grants.Access.{validate-valid, exchange-found}

-- The resource check gives back the resource that it compares with.
validate_canonical-return :
    (env : Env) (uri : Option String) (canonical : String) {target : String}
    → validate_canonical_resource env uri canonical ≡ return target
    → target ≡ canonical
unfolding validate_canonical_resource
validate_canonical-return env uri canonical h = ground arith

-- The store's input of an exchange.
abbrev pub stored_input : Env → Config → ExchangeInput → Fresh → ℕ → ConsumeInput
stored_input env cfg input fresh now = consume_input env cfg input cfg.canonical_resource fresh now

abbrev pub Stored : Env → Config → ExchangeInput → Fresh → ℕ → OAuthDb → TokenResponse → Type 0
Stored env cfg input fresh now db response =
    let done = consume_code_and_issue_tokens env.s256 db (stored_input env cfg input fresh now) in
    (issued : Issued AuthorizationCode) × (done.0 ≡ ok issued)
    × ((exchange_authorization_code env cfg input fresh now db).1 ≡ done.1)
    × (response ≡ token_response cfg fresh issued.from.scope)

exchange_down :
    (env : Env) (cfg : Config) (input : ExchangeInput) (fresh : Fresh) (now : ℕ) (db : OAuthDb)
    {response : TokenResponse}
    → validate_canonical_resource env input.resource cfg.canonical_resource
      ≡ return cfg.canonical_resource
    → (exchange_authorization_code env cfg input fresh now db).0 ≡ return response
    → Stored env cfg input fresh now db response
unfolding exchange_authorization_code
exchange_down env cfg input fresh now db v h =
    elim (Outcome-cases
      (consume_code_and_issue_tokens env.s256 db (stored_input env cfg input fresh now)).0) [
        | inl (issued, e) ↦ (issued, e, ground arith, ground arith)
        | inr (x, e) ↦ absurd (ground arith)
      ]

exchange_target :
    (env : Env) (cfg : Config) (input : ExchangeInput) (fresh : Fresh) (now : ℕ) (db : OAuthDb)
    {response : TokenResponse}
    → (exchange_authorization_code env cfg input fresh now db).0 ≡ return response
    → validate_canonical_resource env input.resource cfg.canonical_resource
      ≡ return cfg.canonical_resource
unfolding exchange_authorization_code
exchange_target env cfg input fresh now db h =
    elim (Result-cases (validate_canonical_resource env input.resource cfg.canonical_resource)) [
      | inl (target, e) ↦ e ∙ ap return (validate_canonical-return env input.resource _ e)
      | inr (x, e) ↦ absurd (ground arith)
    ]

-- After a successful exchange of a stored code, the access token in the response is valid at every
-- time before its lifetime is over, as long as the scope has "mcp", the user is active and the user
-- owns the workspace; and it carries the code's user, workspace, resource and scope.
pub exchange-valid :
    (env : Env) (cfg : Config) (identity : IdentityDb) (input : ExchangeInput) (fresh : Fresh)
    (now later : ℕ) (db : OAuthDb) (code : AuthorizationCode) {response : TokenResponse}
    → find_row (λ (c : AuthorizationCode). c.code_digest == env.sha256_hex input.code) db.codes
      ≡ some code
    → (exchange_authorization_code env cfg input fresh now db).0 ≡ return response
    → later < now + cfg.access_token_ttl_ms
    → has (split_spaces code.scope) "mcp" ≡ true
    → is_user_active identity code.user_id ≡ true
    → has_workspace_access identity code.workspace_id code.user_id ≡ true
    → validate_access_token env cfg identity
        (exchange_authorization_code env cfg input fresh now db).1
        response.access_token
        later
      ≡ valid (exchanged_access_token (stored_input env cfg input fresh now) code)
unfolding find_access_token_by_digest
exchange-valid env cfg identity input fresh now later db code {response} c h l s u w =
    let (issued, done, same, r) =
      exchange_down env cfg input fresh now db (exchange_target env cfg input fresh now db h) h in
    let (c', may, _, _) = exchange-checks env.s256 db (stored_input env cfg input fresh now) done in
    let e : issued.from ≡ code = ground arith in
    rw (r, same)
      ((validate-valid env cfg identity _ fresh.raw_access_token later _).1 (
        rw (← e) (exchange-found env.s256 db (stored_input env cfg input fresh now) done),
        record {
          unrevoked = refl;
          unexpired = l;
          same_resource = ap (λ (x : AuthorizationCode). x.resource) (sym e) ∙ may.same_resource;
          has_mcp = s;
          active = u;
          member = w;
        },
      ))
