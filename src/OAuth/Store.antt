-- ===== src/OAuth/Store.antt =====
-- The store of services/server/src/oauth/store.ts. A method returns its result with the database
-- after it; `ROLLBACK` is the database as it was, and an INSERT against a unique column is the
-- exception that the method rethrows as OAuthStoreUnavailable.
use chief_everything_officer.Base.{
  ℕ, String, Bool, false, not, Option, none, some, ◌&&◌, ◌==◌, ltb, nat_eq, is_none, holds_text,
  if◌then◌else◌, ◌≡◌, ◌⊎◌, inl, inr, refl,
}
use chief_everything_officer.Base.Sql.{find_row, update_rows, count_rows, insert_row}
use chief_everything_officer.OAuth.Records.{
  approved, denied, AuthorizationRequest, AuthorizationCode, OAuthDb, same_request, same_code,
}

pub data StoreError : Type 0 where
  invalid_grant invalid_target unavailable : StoreError

pub data Outcome {ℓ} (A : Type ℓ) : Type ℓ where
  ok : A → Outcome A
  fail : StoreError → Outcome A

unfoldable pub create_authorization_request :
    OAuthDb → AuthorizationRequest → Outcome (Unit {0}) × OAuthDb
create_authorization_request db r =
    elim (insert_row same_request
      (record r {
        decision = none;
        user_id = none;
        workspace_id = none;
        consent_nonce_digest = none;
      })
      db.requests) [
        | none ↦ (fail unavailable, db)
        | some rows ↦ (ok tt, record db { requests = rows })
      ]

unfoldable pub get_authorization_request : OAuthDb → String → Option AuthorizationRequest
get_authorization_request db id = find_row (λ r. r.id == id) db.requests

-- `WHERE id = ? AND decision IS NULL AND expires_at_ms > ?`.
abbrev pub is_pending : String → ℕ → AuthorizationRequest → Bool
is_pending id now r = r.id == id && (is_none r.decision && ltb now r.expires_at_ms)

-- `WHERE id = ? AND decision IS NULL`.
abbrev pub is_undecided : String → AuthorizationRequest → Bool
is_undecided id r = r.id == id && is_none r.decision

unfoldable pub set_consent_nonce_digest : OAuthDb → String → String → ℕ → Bool × OAuthDb
set_consent_nonce_digest db id nonce_digest now = (
  nat_eq (count_rows (is_pending id now) db.requests) 1,
  record db {
    requests =
        update_rows (is_pending id now) (λ r. record r { consent_nonce_digest = some nonce_digest })
          db.requests;
  },
)

pub record ApproveInput : Type 0 where
  pub request_id : String
  pub nonce_digest : String
  pub user_id : String
  pub workspace_id : String
  pub code_id : String
  pub code_digest : String
  pub now_ms : ℕ
  pub code_expires_at_ms : ℕ

-- The row that an approval inserts.
abbrev pub code_of : ApproveInput → AuthorizationRequest → AuthorizationCode
code_of input req = record {
  id = input.code_id;
  code_digest = input.code_digest;
  client_id = req.client_id;
  redirect_uri = req.redirect_uri;
  user_id = input.user_id;
  workspace_id = input.workspace_id;
  resource = req.resource;
  scope = req.scope;
  code_challenge = req.code_challenge;
  issued_at_ms = input.now_ms;
  expires_at_ms = input.code_expires_at_ms;
  consumed_at_ms = none;
}

-- The digest is there, is not empty, and is the given one.
abbrev pub nonce_matches : Option String → String → Bool
nonce_matches none given = false
nonce_matches (some d) given = not (d == "") && d == given

abbrev pub approve_row : ApproveInput → AuthorizationRequest → AuthorizationRequest
approve_row input r = record r {
  decision = some approved;
  user_id = some input.user_id;
  workspace_id = some input.workspace_id;
}

unfoldable pub approve_consent_and_issue_code :
    OAuthDb → ApproveInput → Outcome (Option AuthorizationCode) × OAuthDb
approve_consent_and_issue_code db input =
    elim (find_row (is_pending input.request_id input.now_ms) db.requests) [
      | none ↦ (ok none, db)
      | some req ↦
          if not (nonce_matches req.consent_nonce_digest input.nonce_digest)
          then (ok none, db)
          else if not (nat_eq (count_rows (is_undecided input.request_id) db.requests) 1)
          then (ok none, db)
          else elim (insert_row same_code (code_of input req) db.codes) [
            | none ↦ (fail unavailable, db)
            | some rows ↦ (
              ok (some (code_of input req)),
              record db {
                requests =
                    update_rows (is_undecided input.request_id) (approve_row input) db.requests;
                codes = rows;
              },
            )
          ]
    ]

unfoldable pub deny_consent : OAuthDb → String → String → ℕ → Bool × OAuthDb
deny_consent db request_id nonce_digest now =
    elim (find_row (is_pending request_id now) db.requests) [
      | none ↦ (false, db)
      | some req ↦ if not (holds_text req.consent_nonce_digest nonce_digest) then (false, db) else (
        nat_eq (count_rows (is_undecided request_id) db.requests) 1,
        record db {
          requests =
              update_rows (is_undecided request_id) (λ r. record r { decision = some denied })
                db.requests;
        },
      )
    ]

-- To split on a computed outcome and keep the equation.
pub Outcome-cases {ℓ} :
    {A : Type ℓ} (o : Outcome A) → ((a : A) × (o ≡ ok a)) ⊎ ((e : StoreError) × (o ≡ fail e))
Outcome-cases (ok a) = inl (a, refl)
Outcome-cases (fail e) = inr (e, refl)
