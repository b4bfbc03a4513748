-- ===== src/OAuth/History/Retired.antt =====
-- A revoked family of refresh tokens, over any further calls on the store of services/server/src/
-- oauth/store.ts.
use chief_everything_officer.Base.{
  ℕ, String, true, false, some, List, [], ◌∷◌, ◌≡◌, refl, arith, ◌==◌, is_none, All, All-append,
  eq_refl,
}
use chief_everything_officer.Base.Sql.{find_row, update_rows}
use chief_everything_officer.Base.Sql.Laws.{find_row-All, All-update}
use chief_everything_officer.OAuth.Records.{RefreshToken, OAuthDb}
use chief_everything_officer.OAuth.Store.{fail}
use chief_everything_officer.OAuth.Tokens.{
  ConsumeInput, RotateInput, is_unconsumed_token, consume_token_row, is_unrevoked_in,
  revoke_token_row, rotate_refresh_token_and_issue_tokens, revoke_refresh_token_family,
}
use chief_everything_officer.OAuth.History.Families.{RunIsGood, run-keeps, with_digest}
use chief_everything_officer.OAuth.Tokens.{find_refresh_token_by_digest}
use chief_everything_officer.OAuth.Store.{invalid_grant}
use chief_everything_officer.OAuth.History.{StoreCall, run}

-- A family without an unrevoked token.
abbrev pub IsRetired : String → List RefreshToken → Type 0
IsRetired family = All (λ t. is_unrevoked_in family t ≡ false)

pub revoke-IsRetired :
    (family : String) (now : ℕ) (ts : List RefreshToken)
    → IsRetired family (update_rows (is_unrevoked_in family) (revoke_token_row now) ts)
unfolding update_rows
revoke-IsRetired family now [] = tt
revoke-IsRetired family now (t ∷ ts) = ground (arith, revoke-IsRetired family now ts)

-- A new exchange is given another family than this one.
abbrev pub AvoidsFamily : String → OAuthDb → ConsumeInput → Type 0
AvoidsFamily family db input = (input.refresh_token_family_id == family) ≡ false

IsRetired-rotated :
    (family : String) (db : OAuthDb) (input : RotateInput) (old : RefreshToken)
    → IsRetired family db.refresh_tokens
    → find_row (with_digest input.old_token_digest) db.refresh_tokens ≡ some old
    → is_none old.revoked_at_ms ≡ true
    → (old.family_id == family) ≡ false
IsRetired-rotated family db input old h e r = ground (
  arith,
  find_row-All (with_digest input.old_token_digest) (λ t. is_unrevoked_in family t ≡ false)
      db.refresh_tokens h e,
)

run-IsRetired :
    (family : String) (s256 : String → String) (db : OAuthDb) (cs : List StoreCall)
    → RunIsGood (AvoidsFamily family) s256 db cs
    → IsRetired family db.refresh_tokens
    → IsRetired family (run s256 db cs).refresh_tokens
run-IsRetired family =
    run-keeps (IsRetired family)
      (λ other now ts h.
        All-update _ (is_unrevoked_in other) (revoke_token_row now) (λ t k. ground arith) ts h)
      (λ db input old h e c r.
        All-append _
          (update_rows (is_unconsumed_token old.id) (consume_token_row input.now_ms)
            db.refresh_tokens)
          _
          (All-update _ (is_unconsumed_token old.id) (consume_token_row input.now_ms) (λ t k. k)
            db.refresh_tokens h)
          (ground (arith, IsRetired-rotated family db input old h e r), tt))
      (AvoidsFamily family)
      (λ db input t h g f. All-append _ db.refresh_tokens _ h (rw (f, g) refl, tt))

IsRetired-refused :
    (db : OAuthDb) (input : RotateInput) (t : RefreshToken)
    → IsRetired t.family_id db.refresh_tokens
    → find_row (with_digest input.old_token_digest) db.refresh_tokens ≡ some t
    → rotate_refresh_token_and_issue_tokens db input ≡ (fail invalid_grant, db)
unfolding rotate_refresh_token_and_issue_tokens
IsRetired-refused db input t h e = ground (
  arith,
  eq_refl t.family_id,
  find_row-All (with_digest input.old_token_digest) (λ x. is_unrevoked_in t.family_id x ≡ false)
      db.refresh_tokens h e,
)

-- The store after the revocation of a family and further calls.
abbrev pub after_revocation : (String → String) → OAuthDb → String → ℕ → List StoreCall → OAuthDb
after_revocation s256 db family now cs = run s256 (revoke_refresh_token_family db family now) cs

-- After the revocation of a family, and any further calls whose exchanges are given other families,
-- the rotation of any token of the family is refused as an invalid grant and changes nothing.
pub revoked_family_is_dead :
    (s256 : String → String) (db : OAuthDb) (family : String) (now : ℕ) (cs : List StoreCall)
    (input : RotateInput) (t : RefreshToken)
    → RunIsGood (AvoidsFamily family) s256 (revoke_refresh_token_family db family now) cs
    → find_refresh_token_by_digest (after_revocation s256 db family now cs) input.old_token_digest
      ≡ some t
    → t.family_id ≡ family
    → rotate_refresh_token_and_issue_tokens (after_revocation s256 db family now cs) input
      ≡ (fail invalid_grant, after_revocation s256 db family now cs)
unfolding find_refresh_token_by_digest revoke_refresh_token_family
revoked_family_is_dead s256 db family now cs input t g e f =
    IsRetired-refused _ input t
      (rw f (
        run-IsRetired family s256 (revoke_refresh_token_family db family now) cs g
          (revoke-IsRetired family now db.refresh_tokens)))
      e
