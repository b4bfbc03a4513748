-- ===== src/Tests/OAuth.antt =====
-- The theorems on OAuth at concrete inputs.
use chief_everything_officer.Base.{
  true, false, none, some, [], ◌∷◌, ◌≡◌, refl, arith, ◌==◌, ◌≤◌, ◌↔◌,
}
use chief_everything_officer.Base.Sql.{find_row, update_rows, count_rows, insert_row}
use chief_everything_officer.Identity.{is_user_active, has_workspace_access}
use chief_everything_officer.OAuth.Records.{AuthorizationCode, RefreshToken}
use chief_everything_officer.OAuth.Store.{
  code_of, ok, fail, invalid_grant, approve_consent_and_issue_code,
}
use chief_everything_officer.OAuth.Tokens.{
  insert_tokens, consume_code_and_issue_tokens, rotate_refresh_token_and_issue_tokens,
  revoke_refresh_token_family, find_refresh_token_by_digest, find_access_token_by_digest,
  exchange_issued, exchanged_access_token, exchanged_refresh_token,
}
use chief_everything_officer.OAuth.Scope.{
  is_space, trim, split_spaces, filter_truthy, scope_tokens, join_words, has, all_in,
  narrowed_scope,
}
use chief_everything_officer.OAuth.Service.{return, throw, validate_canonical_resource}
use chief_everything_officer.OAuth.Service.Grant.{
  valid, bad_grant, token_response, exchange_authorization_code, refresh_tokens, refresh_existing,
  rotate_tokens, validate_access_token, validate_record,
}
use chief_everything_officer.OAuth.History.{consumes, rotates, run, step}
use chief_everything_officer.OAuth.History.Codes.{code_single_use}
use chief_everything_officer.OAuth.History.Decisions.{approve_once}
use chief_everything_officer.OAuth.History.Retired.{
  IsRetired, after_revocation, revoked_family_is_dead,
}
use chief_everything_officer.OAuth.History.Live.{unconsumed, unconsumed-run-le}
use chief_everything_officer.OAuth.Grants.Exchange.{
  MayExchange, BelongsTo, exchange-MayExchange, exchange-fail,
}
use chief_everything_officer.OAuth.Grants.Refresh.{
  presented, IsNarrowed, replay-IsRetired, refresh-IsNarrowed,
}
use chief_everything_officer.OAuth.Grants.Access.{IsAccepted, validate-valid}
use chief_everything_officer.OAuth.Grants.Issue.{stored_input, exchange-valid}
use chief_everything_officer.Tests.OAuthData.{
  same, env, cfg, identity, request, code, used_token, live_token, access_token, db, approve_one,
  exchange_one, rotate_one, fresh, exchange_request, refresh_request, replay_request,
}

-- What a run computes with.
running : Unit {0}
unfolding ◌==◌ find_row update_rows count_rows insert_row is_user_active has_workspace_access
    approve_consent_and_issue_code insert_tokens consume_code_and_issue_tokens
    rotate_refresh_token_and_issue_tokens revoke_refresh_token_family find_refresh_token_by_digest
    find_access_token_by_digest is_space trim split_spaces filter_truthy scope_tokens join_words has
    all_in narrowed_scope validate_canonical_resource exchange_authorization_code refresh_tokens
    refresh_existing rotate_tokens validate_access_token validate_record run step
running = tt

exchange_runs :
    (consume_code_and_issue_tokens same db exchange_one).0 ≡ ok (exchange_issued exchange_one code)
unfolding running
exchange_runs = refl

code_single_use_example :
    consume_code_and_issue_tokens same
      (run same (consume_code_and_issue_tokens same db exchange_one).1 (rotates rotate_one ∷ []))
      exchange_one
    ≡ (
      fail invalid_grant,
      run same (consume_code_and_issue_tokens same db exchange_one).1 (rotates rotate_one ∷ []),
    )
code_single_use_example =
    code_single_use same db exchange_one exchange_one (rotates rotate_one ∷ []) exchange_runs refl

exchange-MayExchange_example :
    (find_row (λ (c : AuthorizationCode). c.code_digest == "oac_1") db.codes ≡ some code)
    × MayExchange same exchange_one code
    × BelongsTo exchange_one code
        (exchanged_access_token exchange_one code)
        (exchanged_refresh_token exchange_one code)
exchange-MayExchange_example = exchange-MayExchange same db exchange_one exchange_runs

exchange_expired :
    (consume_code_and_issue_tokens same db (record exchange_one { now_ms = 300020 })).0
    ≡ fail invalid_grant
unfolding running
exchange_expired = refl

exchange-fail_example :
    (consume_code_and_issue_tokens same db (record exchange_one { now_ms = 300020 })).1 ≡ db
exchange-fail_example =
    exchange-fail same db (record exchange_one { now_ms = 300020 }) exchange_expired

approve_runs :
    (approve_consent_and_issue_code db approve_one).0 ≡ ok (some (code_of approve_one request))
unfolding running
approve_runs = refl

approve_once_example :
    approve_consent_and_issue_code
      (run same (approve_consent_and_issue_code db approve_one).1 (consumes exchange_one ∷ []))
      approve_one
    ≡ (
      ok none,
      run same (approve_consent_and_issue_code db approve_one).1 (consumes exchange_one ∷ []),
    )
approve_once_example =
    approve_once same db approve_one approve_one (consumes exchange_one ∷ []) approve_runs refl

-- After the revocation of `fam_0` and one exchange, its child is still there.
child_found :
    find_refresh_token_by_digest
      (after_revocation same db "fam_0" 35 (consumes exchange_one ∷ []))
      "ceo_rt_1"
    ≡ some (record live_token { revoked_at_ms = some 35 })
unfolding running
child_found = refl

avoids : ("fam_2" == "fam_0") ≡ false
unfolding running
avoids = refl

revoked_family_is_dead_example :
    rotate_refresh_token_and_issue_tokens
      (after_revocation same db "fam_0" 35 (consumes exchange_one ∷ []))
      rotate_one
    ≡ (fail invalid_grant, after_revocation same db "fam_0" 35 (consumes exchange_one ∷ []))
revoked_family_is_dead_example =
    revoked_family_is_dead same db "fam_0" 35 (consumes exchange_one ∷ []) rotate_one _ (avoids, tt)
      child_found refl

fam_2_fresh : count_rows (λ (t : RefreshToken). t.family_id == "fam_2") db.refresh_tokens ≡ 0
unfolding running
fam_2_fresh = refl

fam_0_live : unconsumed "fam_0" db.refresh_tokens ≡ 1
unfolding running
fam_0_live = refl

unconsumed-run-le_example :
    unconsumed "fam_0"
      (run same db (consumes exchange_one ∷ rotates rotate_one ∷ [])).refresh_tokens
    ≤ 1
unconsumed-run-le_example =
    unconsumed-run-le "fam_0" same db (consumes exchange_one ∷ rotates rotate_one ∷ [])
      (fam_2_fresh, (tt, tt)) (omega (arith, fam_0_live))

replay_presented : presented env db replay_request ≡ some used_token
unfolding running
replay_presented = refl

replay-IsRetired_example :
    ((refresh_tokens env cfg identity replay_request fresh 60 db).0 ≡ throw bad_grant)
    × IsRetired "fam_0"
        (refresh_tokens env cfg identity replay_request fresh 60 db).1.refresh_tokens
replay-IsRetired_example =
    replay-IsRetired env cfg identity replay_request fresh 60 db used_token replay_presented refl
      refl refl

refresh_runs :
    (refresh_tokens env cfg identity refresh_request fresh 60 db).0
    ≡ return (token_response cfg fresh "mcp")
unfolding running
refresh_runs = refl

refresh-IsNarrowed_example :
    (t : RefreshToken) × (presented env db refresh_request ≡ some t) × IsNarrowed t.scope "mcp"
refresh-IsNarrowed_example =
    refresh-IsNarrowed env cfg identity refresh_request fresh 60 db refresh_runs

accepted : IsAccepted cfg identity 60 access_token
unfolding running
accepted = record {
  unrevoked = refl;
  unexpired = omega arith;
  same_resource = refl;
  has_mcp = refl;
  active = refl;
  member = refl;
}

validate-valid_example :
    (validate_access_token env cfg identity db "ceo_at_1" 60 ≡ valid access_token) ↔ (
      (find_access_token_by_digest db "ceo_at_1" ≡ some access_token)
      × IsAccepted cfg identity 60 access_token)
validate-valid_example = validate-valid env cfg identity db "ceo_at_1" 60 access_token

endpoint_runs :
    (exchange_authorization_code env cfg exchange_request fresh 40 db).0
    ≡ return (token_response cfg fresh "mcp offline_access")
unfolding running
endpoint_runs = refl

code_found : find_row (λ (c : AuthorizationCode). c.code_digest == "oac_1") db.codes ≡ some code
unfolding running
code_found = refl

code_has_mcp : has (split_spaces "mcp offline_access") "mcp" ≡ true
unfolding running
code_has_mcp = refl

exchange-valid_example :
    validate_access_token env cfg identity
      (exchange_authorization_code env cfg exchange_request fresh 40 db).1
      "ceo_at_2"
      3600039
    ≡ valid (exchanged_access_token (stored_input env cfg exchange_request fresh 40) code)
exchange-valid_example =
    exchange-valid env cfg identity exchange_request fresh 40 3600039 db code code_found
      endpoint_runs (omega arith) code_has_mcp accepted.active accepted.member
