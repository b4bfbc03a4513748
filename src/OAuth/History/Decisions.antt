-- ===== src/OAuth/History/Decisions.antt =====
-- Decisions on authorization requests over any calls on the store of
-- services/server/src/oauth/store.ts.
use chief_everything_officer.Base.{
  ℕ, String, Bool, false, inl, inr, none, some, List, [], ◌∷◌, ◌++◌, ◌≡◌, ◌⊎◌, refl, arith, ◌==◌,
  if◌then◌else◌, Option-cases, Bool-cases, All, All-append, subst, eq_iff,
}
use chief_everything_officer.Base.Sql.{find_row, update_rows, insert_row}
use chief_everything_officer.Base.Sql.Laws.{
  insert_row-some, All-update, find_row-update, find_row-All, find_row-none, find_row-append,
  find_row-passes,
}
use chief_everything_officer.OAuth.Records.{
  denied, AuthorizationRequest, AuthorizationCode, OAuthDb, same_request,
}
use chief_everything_officer.OAuth.Store.{
  ok, ApproveInput, is_pending, is_undecided, approve_row, create_authorization_request,
  set_consent_nonce_digest, approve_consent_and_issue_code, deny_consent,
}
use chief_everything_officer.OAuth.Tokens.{
  insert_tokens, consume_code_and_issue_tokens, rotate_refresh_token_and_issue_tokens,
  revoke_refresh_token_family, ConsumeInput, RotateInput,
}
use chief_everything_officer.OAuth.History.{
  StoreCall, creates, sets_nonce, denies, approves, consumes, rotates, revokes, step, run,
}

-- The request is there, and no row of its identifier is undecided.
abbrev pub IsDecided : String → List AuthorizationRequest → Type 0
IsDecided id rs =
    ((r : AuthorizationRequest) × (find_row (λ (x : AuthorizationRequest). x.id == id) rs ≡ some r))
    × All (λ r. is_undecided id r ≡ false) rs

IsDecided-update :
    (id : String) (q : AuthorizationRequest → Bool)
    (f : AuthorizationRequest → AuthorizationRequest)
    → ((r : AuthorizationRequest) → ((f r).id == id) ≡ (r.id == id))
    → ((r : AuthorizationRequest) → is_undecided id r ≡ false → is_undecided id (f r) ≡ false)
    → (rs : List AuthorizationRequest) → IsDecided id rs
    → IsDecided id (update_rows q f rs)
IsDecided-update id q f same keep rs ((r, e), a) = (
  (
    if q r then f r else r,
    find_row-update (λ (x : AuthorizationRequest). x.id == id) q f same rs e,
  ),
  All-update _ q f keep rs a,
)

-- The row that `createAuthorizationRequest` inserts.
abbrev undecided_row : AuthorizationRequest → AuthorizationRequest
undecided_row r = record r {
  decision = none;
  user_id = none;
  workspace_id = none;
  consent_nonce_digest = none;
}

create-requests :
    (db : OAuthDb) (r : AuthorizationRequest)
    → let rs = (create_authorization_request db r).1.requests in
      (rs ≡ db.requests)
      ⊎ ((rs ≡ db.requests ++ undecided_row r ∷ [])
          × (find_row (same_request (undecided_row r)) db.requests ≡ none))
unfolding create_authorization_request
create-requests db r = elim (Option-cases (insert_row same_request (undecided_row r) db.requests)) [
  | inl i ↦ ground arith
  | inr (rows, i) ↦ ground (arith, insert_row-some same_request (undecided_row r) db.requests i)
]

-- A second request of the identifier is refused by the primary key.
create-IsDecided :
    (id : String) (db : OAuthDb) (r : AuthorizationRequest)
    → IsDecided id db.requests
    → IsDecided id (create_authorization_request db r).1.requests
create-IsDecided id db r ((x, e), a) = elim (create-requests db r) [
  | inl k ↦ rw k ((x, e), a)
  | inr (k, absent) ↦ rw k (
    (x, find_row-append (λ (y : AuthorizationRequest). y.id == id) db.requests _ e),
    All-append _ db.requests _ a (other absent, tt),
  )
]
  where
    other :
        find_row (same_request (undecided_row r)) db.requests ≡ none
        → is_undecided id (undecided_row r) ≡ false
    other absent = elim (Bool-cases (r.id == id)) [
      | inl same ↦
          let found : find_row (λ (y : AuthorizationRequest). y.id == id) db.requests ≡ none =
            subst (λ k. find_row (λ (y : AuthorizationRequest). y.id == k) db.requests ≡ none)
              ((eq_iff r.id id).0 same) absent in
          absurd (ground arith)
      | inr k ↦ ground arith
    ]

consume-requests :
    (s256 : String → String) (db : OAuthDb) (input : ConsumeInput)
    → (consume_code_and_issue_tokens s256 db input).1.requests ≡ db.requests
unfolding consume_code_and_issue_tokens insert_tokens
consume-requests s256 db input = ground arith

rotate-requests :
    (db : OAuthDb) (input : RotateInput)
    → (rotate_refresh_token_and_issue_tokens db input).1.requests ≡ db.requests
unfolding rotate_refresh_token_and_issue_tokens insert_tokens
rotate-requests db input = ground arith

abbrev decide_row : AuthorizationRequest → AuthorizationRequest
decide_row r = record r { decision = some denied }

deny-requests :
    (db : OAuthDb) (id nonce : String) (now : ℕ)
    → let rs = (deny_consent db id nonce now).1.requests in
      (rs ≡ db.requests) ⊎ (rs ≡ update_rows (is_undecided id) decide_row db.requests)
unfolding deny_consent
deny-requests db id nonce now = ground arith

approve-requests :
    (db : OAuthDb) (input : ApproveInput)
    → let rs = (approve_consent_and_issue_code db input).1.requests in
      (rs ≡ db.requests)
      ⊎ (rs ≡ update_rows (is_undecided input.request_id) (approve_row input) db.requests)
unfolding approve_consent_and_issue_code
approve-requests db input = ground arith

step-IsDecided :
    (id : String) (s256 : String → String) (db : OAuthDb) (c : StoreCall)
    → IsDecided id db.requests
    → IsDecided id (step s256 db c).requests
unfolding step
step-IsDecided id s256 db (creates r) h = create-IsDecided id db r h
step-IsDecided id s256 db (sets_nonce other nonce now) h =
    unfold set_consent_nonce_digest in
    IsDecided-update id (is_pending other now) _ (λ r. refl) (λ r k. k) db.requests h
step-IsDecided id s256 db (denies other nonce now) h = elim (deny-requests db other nonce now) [
  | inl k ↦ rw k h
  | inr k ↦ rw k (
      IsDecided-update id (is_undecided other) decide_row (λ r. refl) (λ r p. ground arith)
        db.requests h)
]
step-IsDecided id s256 db (approves input) h = elim (approve-requests db input) [
  | inl k ↦ rw k h
  | inr k ↦ rw k (
      IsDecided-update id (is_undecided input.request_id) (approve_row input) (λ r. refl)
        (λ r p. ground arith) db.requests h)
]
step-IsDecided id s256 db (consumes input) h = rw (consume-requests s256 db input) h
step-IsDecided id s256 db (rotates input) h = rw (rotate-requests db input) h
step-IsDecided id s256 db (revokes family now) h = unfold revoke_refresh_token_family in h

run-IsDecided :
    (id : String) (s256 : String → String) (db : OAuthDb) (cs : List StoreCall)
    → IsDecided id db.requests
    → IsDecided id (run s256 db cs).requests
unfolding run
run-IsDecided id s256 db [] h = h
run-IsDecided id s256 db (c ∷ cs) h =
    run-IsDecided id s256 (step s256 db c) cs (step-IsDecided id s256 db c h)

update-decides :
    (input : ApproveInput) (rs : List AuthorizationRequest)
    → All
        (λ r. is_undecided input.request_id r ≡ false)
        (update_rows (is_undecided input.request_id) (approve_row input) rs)
unfolding update_rows
update-decides input [] = tt
update-decides input (r ∷ rs) = ground (arith, update-decides input rs)

-- What is pending has the identifier.
find-pending :
    (id : String) (now : ℕ) (rs : List AuthorizationRequest) {r : AuthorizationRequest}
    → find_row (is_pending id now) rs ≡ some r
    → (x : AuthorizationRequest) × (find_row (λ (y : AuthorizationRequest). y.id == id) rs ≡ some x)
find-pending id now rs {r} h =
    elim (Option-cases (find_row (λ (y : AuthorizationRequest). y.id == id) rs)) [
      | inl e ↦ absurd (
          ground (
            arith,
            find_row-none (is_pending id now) (λ (y : AuthorizationRequest). y.id == id)
                (λ x p. ground arith) rs e,
          ))
      | inr (x, e) ↦ (x, e)
    ]

approve-ok_requests :
    (db : OAuthDb) (input : ApproveInput) {code : AuthorizationCode}
    → (approve_consent_and_issue_code db input).0 ≡ ok (some code)
    → (approve_consent_and_issue_code db input).1.requests
      ≡ update_rows (is_undecided input.request_id) (approve_row input) db.requests
unfolding approve_consent_and_issue_code
approve-ok_requests db input h = ground arith

approve-ok_pending :
    (db : OAuthDb) (input : ApproveInput) {code : AuthorizationCode}
    → (approve_consent_and_issue_code db input).0 ≡ ok (some code)
    → (r : AuthorizationRequest) × (find_row (is_pending input.request_id input.now_ms) db.requests
        ≡ some r)
unfolding approve_consent_and_issue_code
approve-ok_pending db input h =
    elim (Option-cases (find_row (is_pending input.request_id input.now_ms) db.requests)) [
      | inl e ↦ absurd (ground arith)
      | inr f ↦ f
    ]

approve-IsDecided :
    (db : OAuthDb) (input : ApproveInput) {code : AuthorizationCode}
    → (approve_consent_and_issue_code db input).0 ≡ ok (some code)
    → IsDecided input.request_id (approve_consent_and_issue_code db input).1.requests
approve-IsDecided db input h =
    let (r, e) = approve-ok_pending db input h in
    let (x, f) = find-pending input.request_id input.now_ms db.requests e in
    rw (approve-ok_requests db input h) (
      (
        approved_if x,
        find_row-update (λ (y : AuthorizationRequest). y.id == input.request_id)
            (is_undecided input.request_id) (approve_row input) (λ y. refl) db.requests f,
      ),
      update-decides input db.requests,
    )
  where
    approved_if : AuthorizationRequest → AuthorizationRequest
    approved_if x = if is_undecided input.request_id x then approve_row input x else x

IsDecided-refused :
    (db : OAuthDb) (input : ApproveInput)
    → IsDecided input.request_id db.requests
    → approve_consent_and_issue_code db input ≡ (ok none, db)
unfolding approve_consent_and_issue_code
IsDecided-refused db input (_, a) =
    elim (Option-cases (find_row (is_pending input.request_id input.now_ms) db.requests)) [
      | inl e ↦ ground arith
      | inr (r, e) ↦ ground (
        arith,
        find_row-passes (is_pending input.request_id input.now_ms) db.requests e,
        find_row-All (is_pending input.request_id input.now_ms)
            (λ x. is_undecided input.request_id x ≡ false) db.requests a e,
      )
    ]

-- After an approval that issued a code, and any further calls, another approval of the same request
-- issues nothing and changes nothing.
pub approve_once :
    (s256 : String → String) (db : OAuthDb) (input again : ApproveInput) (cs : List StoreCall)
    {code : AuthorizationCode}
    → (approve_consent_and_issue_code db input).0 ≡ ok (some code)
    → again.request_id ≡ input.request_id
    → approve_consent_and_issue_code (run s256 (approve_consent_and_issue_code db input).1 cs) again
      ≡ (ok none, run s256 (approve_consent_and_issue_code db input).1 cs)
approve_once s256 db input again cs h same =
    IsDecided-refused _ again
      (rw same (run-IsDecided input.request_id s256 _ cs (approve-IsDecided db input h)))
