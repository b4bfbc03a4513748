-- ===== src/OAuth/History/Families.antt =====
-- Refresh token families under each call on the store of services/server/src/oauth/store.ts.
use chief_everything_officer.Base.{
  ℕ, String, Bool, true, none, some, List, [], ◌∷◌, ◌++◌, ◌≡◌, refl, ◌⊎◌, inl, inr, arith, ◌==◌,
  is_none, ap, Option-cases,
}
use chief_everything_officer.Base.Sql.{find_row, update_rows, insert_row}
use chief_everything_officer.Base.Sql.Laws.{insert_row-some}
use chief_everything_officer.OAuth.Records.{
  AuthorizationRequest, AuthorizationCode, RefreshToken, OAuthDb, same_access_token,
  same_refresh_token,
}
use chief_everything_officer.OAuth.Store.{
  create_authorization_request, approve_consent_and_issue_code, deny_consent,
  set_consent_nonce_digest, ApproveInput,
}
use chief_everything_officer.OAuth.Tokens.{
  ConsumeInput, RotateInput, Issued, exchanged_refresh_token, is_unconsumed_token,
  consume_token_row, rotated_refresh_token, is_unrevoked_in, revoke_token_row, insert_tokens,
  consume_code, exchange_issued, consume_token, rotation_issued, consume_code_and_issue_tokens,
  rotate_refresh_token_and_issue_tokens, revoke_refresh_token_family,
}
use chief_everything_officer.OAuth.History.{
  StoreCall, creates, sets_nonce, denies, approves, consumes, rotates, revokes, step, run,
}

-- The refresh tokens after the two INSERTs: those of `before`, or those of `db` and the new one.
insert_tokens-cases :
    {A : Type 0} (before db : OAuthDb) (issued : Issued A)
    → ((insert_tokens before db issued).1 ≡ before)
      ⊎ ((insert_tokens before db issued).1.refresh_tokens
          ≡ db.refresh_tokens ++ issued.refresh_token ∷ [])
unfolding insert_tokens
insert_tokens-cases before db issued =
    elim (Option-cases (insert_row same_access_token issued.access_token db.access_tokens)) [
      | inl a ↦ ground arith
      | inr (access, a) ↦
          elim (Option-cases
            (insert_row same_refresh_token issued.refresh_token db.refresh_tokens)) [
              | inl r ↦ ground arith
              | inr (refresh, r) ↦ ground (
                arith,
                insert_row-some same_refresh_token issued.refresh_token db.refresh_tokens r,
              )
            ]
    ]

abbrev pub with_digest : String → RefreshToken → Bool
with_digest d t = t.token_digest == d

-- The tokens after a rotation are unchanged, or the old one was live and is consumed, and its child
-- stands at the end.
abbrev Rotated : OAuthDb → RotateInput → RefreshToken → List RefreshToken → Type 0
Rotated db input old tokens =
    (is_none old.consumed_at_ms ≡ true)
    × (is_none old.revoked_at_ms ≡ true)
    × (tokens
        ≡ update_rows (is_unconsumed_token old.id) (consume_token_row input.now_ms)
            db.refresh_tokens
          ++ rotated_refresh_token input old ∷ [])

rotate-tokens :
    (db : OAuthDb) (input : RotateInput) (old : RefreshToken)
    → find_row (with_digest input.old_token_digest) db.refresh_tokens ≡ some old
    → let tokens = (rotate_refresh_token_and_issue_tokens db input).1.refresh_tokens in
      (tokens ≡ db.refresh_tokens) ⊎ Rotated db input old tokens
unfolding rotate_refresh_token_and_issue_tokens
rotate-tokens db input old e =
    ground (arith, insert_tokens-cases db (consume_token db input old) (rotation_issued input old))

rotate-tokens_missing :
    (db : OAuthDb) (input : RotateInput)
    → find_row (with_digest input.old_token_digest) db.refresh_tokens ≡ none
    → (rotate_refresh_token_and_issue_tokens db input).1 ≡ db
unfolding rotate_refresh_token_and_issue_tokens
rotate-tokens_missing db input e = rw (e, rotate_refresh_token_and_issue_tokens)

-- The tokens after an exchange are unchanged, or one more stands at the end, in the given family.
abbrev Exchanged : OAuthDb → ConsumeInput → List RefreshToken → Type 0
Exchanged db input tokens =
    (t : RefreshToken) × (t.family_id ≡ input.refresh_token_family_id)
    × (tokens ≡ db.refresh_tokens ++ t ∷ [])

consume-tokens_found :
    (s256 : String → String) (db : OAuthDb) (input : ConsumeInput) (code : AuthorizationCode)
    → find_row (λ (c : AuthorizationCode). c.code_digest == input.code_digest) db.codes ≡ some code
    → let tokens = (consume_code_and_issue_tokens s256 db input).1.refresh_tokens in
      (tokens ≡ db.refresh_tokens)
      ⊎ (tokens ≡ db.refresh_tokens ++ exchanged_refresh_token input code ∷ [])
unfolding consume_code_and_issue_tokens
consume-tokens_found s256 db input code e =
    ground (arith, insert_tokens-cases db (consume_code db input code) (exchange_issued input code))

consume-tokens_missing :
    (s256 : String → String) (db : OAuthDb) (input : ConsumeInput)
    → find_row (λ (c : AuthorizationCode). c.code_digest == input.code_digest) db.codes ≡ none
    → (consume_code_and_issue_tokens s256 db input).1 ≡ db
unfolding consume_code_and_issue_tokens
consume-tokens_missing s256 db input e = rw (e, consume_code_and_issue_tokens)

consume-tokens :
    (s256 : String → String) (db : OAuthDb) (input : ConsumeInput)
    → let tokens = (consume_code_and_issue_tokens s256 db input).1.refresh_tokens in
      (tokens ≡ db.refresh_tokens) ⊎ Exchanged db input tokens
consume-tokens s256 db input =
    elim (Option-cases
      (find_row (λ (c : AuthorizationCode). c.code_digest == input.code_digest) db.codes)) [
        | inl e ↦
            inl (ap (λ (d : OAuthDb). d.refresh_tokens) (consume-tokens_missing s256 db input e))
        | inr (code, e) ↦ elim (consume-tokens_found s256 db input code e) [
          | inl k ↦ inl k
          | inr k ↦ inr (exchanged_refresh_token input code, refl, k)
        ]
      ]

-- The calls that leave the refresh tokens alone.
create-tokens :
    (db : OAuthDb) (r : AuthorizationRequest)
    → (create_authorization_request db r).1.refresh_tokens ≡ db.refresh_tokens
unfolding create_authorization_request
create-tokens db r = ground arith

deny-tokens :
    (db : OAuthDb) (id nonce : String) (now : ℕ)
    → (deny_consent db id nonce now).1.refresh_tokens ≡ db.refresh_tokens
unfolding deny_consent
deny-tokens db id nonce now = ground arith

approve-tokens :
    (db : OAuthDb) (input : ApproveInput)
    → (approve_consent_and_issue_code db input).1.refresh_tokens ≡ db.refresh_tokens
unfolding approve_consent_and_issue_code
approve-tokens db input = ground arith

-- Each exchange of a history is good in the state where it is made.
module _ (Good : OAuthDb → ConsumeInput → Type 0) where
  abbrev CallIsGood : OAuthDb → StoreCall → Type 0
  CallIsGood db (consumes input) = Good db input
  CallIsGood db _ = Unit

  abbrev pub RunIsGood : (String → String) → OAuthDb → List StoreCall → Type 0
  RunIsGood s256 db [] = Unit
  RunIsGood s256 db (c ∷ cs) = CallIsGood db c × RunIsGood s256 (step s256 db c) cs

-- A rule for what every call keeps: it survives the consumption and the revocation of tokens, and
-- the two kinds of new row.
module _ {ℓ} (P : List RefreshToken → Type ℓ)
    (revoked : (family : String) (now : ℕ) (ts : List RefreshToken)
      → P ts
      → P (update_rows (is_unrevoked_in family) (revoke_token_row now) ts))
    (rotated : (db : OAuthDb) (input : RotateInput) (old : RefreshToken)
      → P db.refresh_tokens
      → find_row (with_digest input.old_token_digest) db.refresh_tokens ≡ some old
      → is_none old.consumed_at_ms ≡ true
      → is_none old.revoked_at_ms ≡ true
      → P (
          update_rows
            (is_unconsumed_token old.id)
            (consume_token_row input.now_ms)
            db.refresh_tokens
          ++ rotated_refresh_token input old ∷ []))
    (Good : OAuthDb → ConsumeInput → Type 0)
    (exchanged : (db : OAuthDb) (input : ConsumeInput) (t : RefreshToken)
      → P db.refresh_tokens
      → Good db input
      → t.family_id ≡ input.refresh_token_family_id
      → P (db.refresh_tokens ++ t ∷ [])) where
  step-keeps :
      (s256 : String → String) (db : OAuthDb) (c : StoreCall)
      → CallIsGood Good db c
      → P db.refresh_tokens
      → P (step s256 db c).refresh_tokens
  unfolding step
  step-keeps s256 db (creates r) g h = rw (create-tokens db r) h
  step-keeps s256 db (sets_nonce id nonce now) g h = unfold set_consent_nonce_digest in h
  step-keeps s256 db (denies id nonce now) g h = rw (deny-tokens db id nonce now) h
  step-keeps s256 db (approves input) g h = rw (approve-tokens db input) h
  step-keeps s256 db (consumes input) g h = elim (consume-tokens s256 db input) [
    | inl k ↦ rw k h
    | inr (t, f, k) ↦ rw k (exchanged db input t h g f)
  ]
  step-keeps s256 db (rotates input) g h =
      elim (Option-cases (find_row (with_digest input.old_token_digest) db.refresh_tokens)) [
        | inl e ↦ rw (rotate-tokens_missing db input e) h
        | inr (old, e) ↦ elim (rotate-tokens db input old e) [
          | inl k ↦ rw k h
          | inr (c, r, k) ↦ rw k (rotated db input old h e c r)
        ]
      ]
  step-keeps s256 db (revokes family now) g h =
      unfold revoke_refresh_token_family in revoked family now db.refresh_tokens h

  pub run-keeps :
      (s256 : String → String) (db : OAuthDb) (cs : List StoreCall)
      → RunIsGood Good s256 db cs
      → P db.refresh_tokens
      → P (run s256 db cs).refresh_tokens
  unfolding run
  run-keeps s256 db [] g h = h
  run-keeps s256 db (c ∷ cs) g h =
      run-keeps s256 (step s256 db c) cs g.1 (step-keeps s256 db c g.0 h)
