-- ===== src/OAuth/Tokens.antt =====
-- The token half of services/server/src/oauth/store.ts: the exchange of a code, the rotation of a
-- refresh token and the revocation of a family. `sha256Base64Url` is the argument `s256`.
use chief_everything_officer.Base.{
  ℕ, String, Bool, not, Option, none, some, ◌&&◌, ◌||◌, ◌==◌, leb, nat_eq, is_none, is_some,
  if◌then◌else◌,
}
use chief_everything_officer.Base.Sql.{find_row, update_rows, count_rows, insert_row}
use chief_everything_officer.OAuth.Records.{
  AuthorizationCode, AccessToken, RefreshToken, OAuthDb, same_access_token, same_refresh_token,
}
use chief_everything_officer.OAuth.Store.{
  Outcome, ok, fail, invalid_grant, invalid_target, unavailable,
}

pub record ConsumeInput : Type 0 where
  pub code_digest : String
  pub client_id : String
  pub redirect_uri : String
  pub resource : String
  pub code_verifier : String
  pub access_token_id : String
  pub access_token_digest : String
  pub access_token_expires_at_ms : ℕ
  pub refresh_token_id : String
  pub refresh_token_digest : String
  pub refresh_token_family_id : String
  pub refresh_token_expires_at_ms : ℕ
  pub now_ms : ℕ

-- What an exchange or a rotation hands back: the code or the old token, and the two new rows.
pub record Issued (A : Type 0) : Type 0 where
  pub from : A
  pub access_token : AccessToken
  pub refresh_token : RefreshToken

abbrev pub exchanged_access_token : ConsumeInput → AuthorizationCode → AccessToken
exchanged_access_token input code = record {
  id = input.access_token_id;
  token_digest = input.access_token_digest;
  client_id = code.client_id;
  user_id = code.user_id;
  workspace_id = code.workspace_id;
  resource = code.resource;
  scope = code.scope;
  issued_at_ms = input.now_ms;
  expires_at_ms = input.access_token_expires_at_ms;
  revoked_at_ms = none;
}

abbrev pub exchanged_refresh_token : ConsumeInput → AuthorizationCode → RefreshToken
exchanged_refresh_token input code = record {
  id = input.refresh_token_id;
  token_digest = input.refresh_token_digest;
  family_id = input.refresh_token_family_id;
  client_id = code.client_id;
  user_id = code.user_id;
  workspace_id = code.workspace_id;
  resource = code.resource;
  scope = code.scope;
  issued_at_ms = input.now_ms;
  expires_at_ms = input.refresh_token_expires_at_ms;
  consumed_at_ms = none;
  revoked_at_ms = none;
}

-- `WHERE id = ? AND consumed_at_ms IS NULL`.
abbrev pub is_unconsumed_code : String → AuthorizationCode → Bool
is_unconsumed_code id c = c.id == id && is_none c.consumed_at_ms

abbrev pub consume_code_row : ℕ → AuthorizationCode → AuthorizationCode
consume_code_row now c = record c { consumed_at_ms = some now }

-- The UPDATE of an exchange, and what it hands back.
abbrev pub consume_code : OAuthDb → ConsumeInput → AuthorizationCode → OAuthDb
consume_code db input code = record db {
  codes = update_rows (is_unconsumed_code code.id) (consume_code_row input.now_ms) db.codes;
}

abbrev pub exchange_issued : ConsumeInput → AuthorizationCode → Issued AuthorizationCode
exchange_issued input code = record {
  from = code;
  access_token = exchanged_access_token input code;
  refresh_token = exchanged_refresh_token input code;
}

-- The two INSERTs of an exchange or a rotation, and the COMMIT; a refused one rolls all back.
unfoldable pub insert_tokens :
    {A : Type 0} → OAuthDb → OAuthDb → Issued A → Outcome (Issued A) × OAuthDb
insert_tokens before db issued =
    elim (insert_row same_access_token issued.access_token db.access_tokens) [
      | none ↦ (fail unavailable, before)
      | some access ↦ elim (insert_row same_refresh_token issued.refresh_token db.refresh_tokens) [
        | none ↦ (fail unavailable, before)
        | some refresh ↦ (ok issued, record db { access_tokens = access; refresh_tokens = refresh })
      ]
    ]

unfoldable pub consume_code_and_issue_tokens :
    (String → String) → OAuthDb → ConsumeInput → Outcome (Issued AuthorizationCode) × OAuthDb
consume_code_and_issue_tokens s256 db input =
    elim (find_row (λ c. c.code_digest == input.code_digest) db.codes) [
      | none ↦ (fail invalid_grant, db)
      | some code ↦
          if is_some code.consumed_at_ms || leb code.expires_at_ms input.now_ms
          then (fail invalid_grant, db)
          else if not (code.client_id == input.client_id)
              || not (code.redirect_uri == input.redirect_uri)
          then (fail invalid_grant, db)
          else if not (code.resource == input.resource)
          then (fail invalid_target, db)
          else if not (s256 input.code_verifier == code.code_challenge)
          then (fail invalid_grant, db)
          else if not (nat_eq (count_rows (is_unconsumed_code code.id) db.codes) 1)
          then (fail invalid_grant, db)
          else insert_tokens db (consume_code db input code) (exchange_issued input code)
    ]

unfoldable pub find_refresh_token_by_digest : OAuthDb → String → Option RefreshToken
find_refresh_token_by_digest db digest = find_row (λ t. t.token_digest == digest) db.refresh_tokens

unfoldable pub find_access_token_by_digest : OAuthDb → String → Option AccessToken
find_access_token_by_digest db digest = find_row (λ t. t.token_digest == digest) db.access_tokens

pub record RotateInput : Type 0 where
  pub old_token_digest : String
  pub client_id : String
  pub resource : String
  pub new_scope : String
  pub access_token_id : String
  pub access_token_digest : String
  pub access_token_expires_at_ms : ℕ
  pub new_refresh_token_id : String
  pub new_refresh_token_digest : String
  pub new_refresh_token_expires_at_ms : ℕ
  pub now_ms : ℕ

abbrev pub rotated_access_token : RotateInput → RefreshToken → AccessToken
rotated_access_token input old = record {
  id = input.access_token_id;
  token_digest = input.access_token_digest;
  client_id = old.client_id;
  user_id = old.user_id;
  workspace_id = old.workspace_id;
  resource = old.resource;
  scope = input.new_scope;
  issued_at_ms = input.now_ms;
  expires_at_ms = input.access_token_expires_at_ms;
  revoked_at_ms = none;
}

-- The child of a rotation, in the family of the old token.
abbrev pub rotated_refresh_token : RotateInput → RefreshToken → RefreshToken
rotated_refresh_token input old = record {
  id = input.new_refresh_token_id;
  token_digest = input.new_refresh_token_digest;
  family_id = old.family_id;
  client_id = old.client_id;
  user_id = old.user_id;
  workspace_id = old.workspace_id;
  resource = old.resource;
  scope = input.new_scope;
  issued_at_ms = input.now_ms;
  expires_at_ms = input.new_refresh_token_expires_at_ms;
  consumed_at_ms = none;
  revoked_at_ms = none;
}

abbrev pub is_unconsumed_token : String → RefreshToken → Bool
is_unconsumed_token id t = t.id == id && is_none t.consumed_at_ms

abbrev pub consume_token_row : ℕ → RefreshToken → RefreshToken
consume_token_row now t = record t { consumed_at_ms = some now }

-- The UPDATE of a rotation, and what it hands back.
abbrev pub consume_token : OAuthDb → RotateInput → RefreshToken → OAuthDb
consume_token db input old = record db {
  refresh_tokens =
      update_rows (is_unconsumed_token old.id) (consume_token_row input.now_ms) db.refresh_tokens;
}

abbrev pub rotation_issued : RotateInput → RefreshToken → Issued RefreshToken
rotation_issued input old = record {
  from = old;
  access_token = rotated_access_token input old;
  refresh_token = rotated_refresh_token input old;
}

unfoldable pub rotate_refresh_token_and_issue_tokens :
    OAuthDb → RotateInput → Outcome (Issued RefreshToken) × OAuthDb
rotate_refresh_token_and_issue_tokens db input =
    elim (find_row (λ t. t.token_digest == input.old_token_digest) db.refresh_tokens) [
      | none ↦ (fail invalid_grant, db)
      | some old ↦
          if is_some old.consumed_at_ms
            || (is_some old.revoked_at_ms || leb old.expires_at_ms input.now_ms)
          then (fail invalid_grant, db)
          else if not (old.client_id == input.client_id)
          then (fail invalid_grant, db)
          else if not (old.resource == input.resource)
          then (fail invalid_target, db)
          else if not (nat_eq (count_rows (is_unconsumed_token old.id) db.refresh_tokens) 1)
          then (fail invalid_grant, db)
          else insert_tokens db (consume_token db input old) (rotation_issued input old)
    ]

-- `WHERE family_id = ? AND revoked_at_ms IS NULL`.
abbrev pub is_unrevoked_in : String → RefreshToken → Bool
is_unrevoked_in family t = t.family_id == family && is_none t.revoked_at_ms

abbrev pub revoke_token_row : ℕ → RefreshToken → RefreshToken
revoke_token_row now t = record t { revoked_at_ms = some now }

unfoldable pub revoke_refresh_token_family : OAuthDb → String → ℕ → OAuthDb
revoke_refresh_token_family db family now = record db {
  refresh_tokens = update_rows (is_unrevoked_in family) (revoke_token_row now) db.refresh_tokens;
}
