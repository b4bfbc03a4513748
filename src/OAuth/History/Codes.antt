-- ===== src/OAuth/History/Codes.antt =====
-- Authorization codes over a history of calls on the store of services/server/src/oauth/store.ts.
use chief_everything_officer.Base.{
  ℕ, String, Bool, true, none, some, List, [], ◌∷◌, ◌++◌, ◌≡◌, refl, ◌⊎◌, inl, inr, arith, ◌==◌,
  is_some, if◌then◌else◌, Option-cases, eq_refl,
}
use chief_everything_officer.Base.Sql.{find_row, update_rows, insert_row}
use chief_everything_officer.Base.Sql.Laws.{find_row-append, find_row-update, insert_row-some}
use chief_everything_officer.OAuth.Records.{
  AuthorizationRequest, AuthorizationCode, OAuthDb, same_code,
}
use chief_everything_officer.OAuth.Store.{
  ok, fail, invalid_grant, ApproveInput, code_of, is_pending, approve_consent_and_issue_code,
  create_authorization_request, set_consent_nonce_digest, deny_consent,
}
use chief_everything_officer.OAuth.Tokens.{
  ConsumeInput, RotateInput, Issued, is_unconsumed_code, consume_code_row, insert_tokens,
  consume_code_and_issue_tokens, rotate_refresh_token_and_issue_tokens, revoke_refresh_token_family,
}
use chief_everything_officer.OAuth.History.{
  StoreCall, creates, sets_nonce, denies, approves, consumes, rotates, revokes, step, run,
}

abbrev with_digest : String → AuthorizationCode → Bool
with_digest d c = c.code_digest == d

-- The code with this digest is there and is marked as consumed.
abbrev pub IsSpent : String → List AuthorizationCode → Type 0
IsSpent d codes =
    (c : AuthorizationCode) × (find_row (with_digest d) codes ≡ some c)
    × (is_some c.consumed_at_ms ≡ true)

IsSpent-append :
    (d : String) (codes more : List AuthorizationCode) → IsSpent d codes → IsSpent d (codes ++ more)
IsSpent-append d codes more (c, e, s) = (c, find_row-append (with_digest d) codes more e, s)

IsSpent-consume :
    (d id : String) (now : ℕ) (codes : List AuthorizationCode)
    → IsSpent d codes
    → IsSpent d (update_rows (is_unconsumed_code id) (consume_code_row now) codes)
IsSpent-consume d id now codes (c, e, s) = (
  if is_unconsumed_code id c then consume_code_row now c else c,
  find_row-update (with_digest d) (is_unconsumed_code id) (consume_code_row now) (λ x. refl) codes
      e,
  ground arith,
)

-- What an exchange leaves of the codes: nothing changed, or the one update.
consume-codes :
    (s256 : String → String) (db : OAuthDb) (input : ConsumeInput) {c : AuthorizationCode}
    → find_row (with_digest input.code_digest) db.codes ≡ some c
    → let codes = (consume_code_and_issue_tokens s256 db input).1.codes in
      (codes ≡ db.codes)
      ⊎ (codes ≡ update_rows (is_unconsumed_code c.id) (consume_code_row input.now_ms) db.codes)
unfolding consume_code_and_issue_tokens insert_tokens
consume-codes s256 db input e = ground arith

consume-codes_missing :
    (s256 : String → String) (db : OAuthDb) (input : ConsumeInput)
    → find_row (with_digest input.code_digest) db.codes ≡ none
    → consume_code_and_issue_tokens s256 db input ≡ (fail invalid_grant, db)
unfolding consume_code_and_issue_tokens insert_tokens
consume-codes_missing s256 db input e = rw (e, consume_code_and_issue_tokens)

IsSpent-consumes :
    (d : String) (s256 : String → String) (db : OAuthDb) (input : ConsumeInput)
    → IsSpent d db.codes
    → IsSpent d (consume_code_and_issue_tokens s256 db input).1.codes
IsSpent-consumes d s256 db input h =
    elim (Option-cases (find_row (with_digest input.code_digest) db.codes)) [
      | inl e ↦ rw (consume-codes_missing s256 db input e) h
      | inr (c, e) ↦ elim (consume-codes s256 db input e) [
        | inl k ↦ rw k h
        | inr k ↦ rw k (IsSpent-consume d c.id input.now_ms db.codes h)
      ]
    ]

approve-codes :
    (db : OAuthDb) (input : ApproveInput) (req : AuthorizationRequest)
    → find_row (is_pending input.request_id input.now_ms) db.requests ≡ some req
    → let codes = (approve_consent_and_issue_code db input).1.codes in
      (codes ≡ db.codes) ⊎ (codes ≡ db.codes ++ code_of input req ∷ [])
unfolding approve_consent_and_issue_code
approve-codes db input req e =
    elim (Option-cases (insert_row same_code (code_of input req) db.codes)) [
      | inl i ↦ ground arith
      | inr (rows, i) ↦ ground (arith, insert_row-some same_code (code_of input req) db.codes i)
    ]

approve-codes_missing :
    (db : OAuthDb) (input : ApproveInput)
    → find_row (is_pending input.request_id input.now_ms) db.requests ≡ none
    → approve_consent_and_issue_code db input ≡ (ok none, db)
unfolding approve_consent_and_issue_code
approve-codes_missing db input e = rw (e, approve_consent_and_issue_code)

IsSpent-approves :
    (d : String) (db : OAuthDb) (input : ApproveInput)
    → IsSpent d db.codes
    → IsSpent d (approve_consent_and_issue_code db input).1.codes
IsSpent-approves d db input h =
    elim (Option-cases (find_row (is_pending input.request_id input.now_ms) db.requests)) [
      | inl e ↦ rw (approve-codes_missing db input e) h
      | inr (req, e) ↦ elim (approve-codes db input req e) [
        | inl k ↦ rw k h
        | inr k ↦ rw k (IsSpent-append d db.codes (code_of input req ∷ []) h)
      ]
    ]

rotate-codes :
    (db : OAuthDb) (input : RotateInput)
    → (rotate_refresh_token_and_issue_tokens db input).1.codes ≡ db.codes
unfolding rotate_refresh_token_and_issue_tokens insert_tokens
rotate-codes db input = ground arith

step-IsSpent :
    (d : String) (s256 : String → String) (db : OAuthDb) (c : StoreCall)
    → IsSpent d db.codes
    → IsSpent d (step s256 db c).codes
unfolding step
step-IsSpent d s256 db (creates r) h =
    let same : (create_authorization_request db r).1.codes ≡ db.codes =
      unfold create_authorization_request in ground arith in
    rw same h
step-IsSpent d s256 db (sets_nonce id nonce now) h = unfold set_consent_nonce_digest in h
step-IsSpent d s256 db (denies id nonce now) h =
    let same : (deny_consent db id nonce now).1.codes ≡ db.codes =
      unfold deny_consent in ground arith in
    rw same h
step-IsSpent d s256 db (approves input) h = IsSpent-approves d db input h
step-IsSpent d s256 db (consumes input) h = IsSpent-consumes d s256 db input h
step-IsSpent d s256 db (rotates input) h = rw (rotate-codes db input) h
step-IsSpent d s256 db (revokes family now) h = unfold revoke_refresh_token_family in h

run-IsSpent :
    (d : String) (s256 : String → String) (db : OAuthDb) (cs : List StoreCall)
    → IsSpent d db.codes
    → IsSpent d (run s256 db cs).codes
unfolding run
run-IsSpent d s256 db [] h = h
run-IsSpent d s256 db (c ∷ cs) h =
    run-IsSpent d s256 (step s256 db c) cs (step-IsSpent d s256 db c h)

consume-IsSpent :
    (s256 : String → String) (db : OAuthDb) (input : ConsumeInput)
    {issued : Issued AuthorizationCode}
    → (consume_code_and_issue_tokens s256 db input).0 ≡ ok issued
    → IsSpent input.code_digest (consume_code_and_issue_tokens s256 db input).1.codes
unfolding consume_code_and_issue_tokens insert_tokens
consume-IsSpent s256 db input h =
    elim (Option-cases (find_row (with_digest input.code_digest) db.codes)) [
      | inl e ↦ absurd (ground arith)
      | inr (c, e) ↦ (
        consume_code_row input.now_ms c,
        ground (
          arith,
          eq_refl c.id,
          find_row-update (with_digest input.code_digest) (is_unconsumed_code c.id)
              (consume_code_row input.now_ms) (λ x. refl) db.codes e,
        ),
        refl,
      )
    ]

IsSpent-refused :
    (s256 : String → String) (db : OAuthDb) (input : ConsumeInput)
    → IsSpent input.code_digest db.codes
    → consume_code_and_issue_tokens s256 db input ≡ (fail invalid_grant, db)
unfolding consume_code_and_issue_tokens
IsSpent-refused s256 db input (c, e, s) = ground arith

-- After a successful exchange, and after any further calls whatever, every exchange of a code with
-- the same digest is refused as an invalid grant and changes nothing.
pub code_single_use :
    (s256 : String → String) (db : OAuthDb) (input again : ConsumeInput) (cs : List StoreCall)
    {issued : Issued AuthorizationCode}
    → (consume_code_and_issue_tokens s256 db input).0 ≡ ok issued
    → again.code_digest ≡ input.code_digest
    → consume_code_and_issue_tokens s256
        (run s256 (consume_code_and_issue_tokens s256 db input).1 cs)
        again
      ≡ (fail invalid_grant, run s256 (consume_code_and_issue_tokens s256 db input).1 cs)
code_single_use s256 db input again cs h same =
    IsSpent-refused s256 _ again
      (rw same (run-IsSpent input.code_digest s256 _ cs (consume-IsSpent s256 db input h)))
