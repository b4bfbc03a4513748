-- ===== src/OAuth/Grants/Refresh.antt =====
-- The refresh of tokens: a replayed token, and the scope that is granted.
use chief_everything_officer.Base.{
  ℕ, String, true, false, Option, inl, inr, none, some, ◌≡◌, ◌⊎◌, refl, arith, is_some,
  Option-cases, Bool-cases,
}
use chief_everything_officer.Identity.{IdentityDb}
use chief_everything_officer.OAuth.Records.{RefreshToken, OAuthDb}
use chief_everything_officer.OAuth.Tokens.{
  find_refresh_token_by_digest, revoke_refresh_token_family,
}
use chief_everything_officer.OAuth.Scope.{
  is_empty, all_in, split_spaces, scope_tokens, narrowed_scope, join_words,
}
use chief_everything_officer.OAuth.Scope.Words.{scope_tokens-join_words-scope_tokens}
use chief_everything_officer.OAuth.History.Retired.{IsRetired, revoke-IsRetired}
use chief_everything_officer.OAuth.Service.{
  Env, Config, return, throw, Result-cases, validate_canonical_resource,
}
use chief_everything_officer.OAuth.Service.Grant.{
  Fresh, RefreshInput, TokenResponse, refresh_tokens, refresh_existing, rotate_tokens, bad_grant,
}

-- The row of the presented refresh token.
abbrev pub presented : Env → OAuthDb → RefreshInput → Option RefreshToken
presented env db input = find_refresh_token_by_digest db (env.sha256_hex input.refresh_token)

refresh_consumed :
    (env : Env) (cfg : Config) (identity : IdentityDb) (input : RefreshInput) (fresh : Fresh)
    (now : ℕ) (db : OAuthDb) (t : RefreshToken)
    → presented env db input ≡ some t
    → is_some t.consumed_at_ms ≡ true
    → is_empty input.refresh_token ≡ false
    → is_empty input.client_id ≡ false
    → refresh_tokens env cfg identity input fresh now db
      ≡ (throw bad_grant, revoke_refresh_token_family db t.family_id now)
unfolding refresh_tokens refresh_existing
refresh_consumed env cfg identity input fresh now db t e c n m = ground arith

-- A refresh with a token that was consumed before, whatever the client, is refused as an invalid
-- grant, and afterwards no token of the family is unrevoked.
pub replay-IsRetired :
    (env : Env) (cfg : Config) (identity : IdentityDb) (input : RefreshInput) (fresh : Fresh)
    (now : ℕ) (db : OAuthDb) (t : RefreshToken)
    → presented env db input ≡ some t
    → is_some t.consumed_at_ms ≡ true
    → is_empty input.refresh_token ≡ false
    → is_empty input.client_id ≡ false
    → ((refresh_tokens env cfg identity input fresh now db).0 ≡ throw bad_grant)
      × IsRetired t.family_id (refresh_tokens env cfg identity input fresh now db).1.refresh_tokens
unfolding revoke_refresh_token_family
replay-IsRetired env cfg identity input fresh now db t e c n m =
    rw (refresh_consumed env cfg identity input fresh now db t e c n m)
      (refl, revoke-IsRetired t.family_id now db.refresh_tokens)

-- What a narrowing gives: the scope itself, or tokens that all stand in it.
abbrev pub IsNarrowed : String → String → Type 0
IsNarrowed existing new =
    (new ≡ existing) ⊎ (all_in (split_spaces existing) (scope_tokens new) ≡ true)

narrowed_empty :
    (existing given : String) {new : String}
    → is_empty given ≡ true
    → narrowed_scope existing (some given) ≡ some new
    → new ≡ existing
unfolding narrowed_scope
narrowed_empty existing given e h = ground arith

-- `scope_tokens` and `all_in` stay shut.
narrowed_cases :
    (existing given : String) {new : String}
    → is_empty given ≡ false
    → narrowed_scope existing (some given) ≡ some new
    → (all_in (split_spaces existing) (scope_tokens given) ≡ true)
      × (new ≡ join_words (scope_tokens given))
unfolding narrowed_scope
narrowed_cases existing given e h = ground arith

narrowed_tokens :
    (existing given : String) {new : String}
    → is_empty given ≡ false
    → narrowed_scope existing (some given) ≡ some new
    → all_in (split_spaces existing) (scope_tokens new) ≡ true
narrowed_tokens existing given e h =
    let (passed, joined) = narrowed_cases existing given e h in
    rw joined (rw (scope_tokens-join_words-scope_tokens given) passed)

narrowed_scope-IsNarrowed :
    (existing : String) (given : Option String) {new : String}
    → narrowed_scope existing given ≡ some new
    → IsNarrowed existing new
narrowed_scope-IsNarrowed existing none h = inl (unfold narrowed_scope in ground arith)
narrowed_scope-IsNarrowed existing (some given) {new} h = elim (Bool-cases (is_empty given)) [
  | inl e ↦ inl (narrowed_empty existing given e h)
  | inr e ↦ inr (narrowed_tokens existing given e h)
]

rotate_tokens-scope :
    (env : Env) (cfg : Config) (input : RefreshInput) (t : RefreshToken) (target : String)
    (fresh : Fresh) (now : ℕ) (db : OAuthDb) {response : TokenResponse}
    → (rotate_tokens env cfg input t target fresh now db).0 ≡ return response
    → narrowed_scope t.scope input.scope ≡ some response.scope
unfolding rotate_tokens
rotate_tokens-scope env cfg input t target fresh now db h = ground arith

refresh_existing-scope :
    (env : Env) (cfg : Config) (identity : IdentityDb) (input : RefreshInput) (t : RefreshToken)
    (fresh : Fresh) (now : ℕ) (db : OAuthDb) {response : TokenResponse}
    → (refresh_existing env cfg identity input t fresh now db).0 ≡ return response
    → narrowed_scope t.scope input.scope ≡ some response.scope
unfolding refresh_existing
refresh_existing-scope env cfg identity input t fresh now db {response} h =
    elim (Result-cases (validate_canonical_resource env input.resource t.resource)) [
      | inl (target, e) ↦
          ground
            (arith, rotate_tokens-scope env cfg input t target fresh now db {response = response})
      | inr (x, e) ↦ absurd (ground arith)
    ]

-- A successful refresh was made with a token that is there, and the scope that it grants is that of
-- the token or holds only tokens of it.
pub refresh-IsNarrowed :
    (env : Env) (cfg : Config) (identity : IdentityDb) (input : RefreshInput) (fresh : Fresh)
    (now : ℕ) (db : OAuthDb) {response : TokenResponse}
    → (refresh_tokens env cfg identity input fresh now db).0 ≡ return response
    → (t : RefreshToken) × (presented env db input ≡ some t) × IsNarrowed t.scope response.scope
unfolding refresh_tokens
refresh-IsNarrowed env cfg identity input fresh now db {response} h =
    elim (Option-cases (presented env db input)) [
      | inl e ↦ absurd (ground arith)
      | inr (t, e) ↦ (
        t,
        e,
        narrowed_scope-IsNarrowed t.scope input.scope (
            refresh_existing-scope env cfg identity input t fresh now db {response = response}
              (ground arith)),
      )
    ]
