-- ===== src/OAuth/History/Live.antt =====
-- The unconsumed tokens of a family, over any calls on the store of services/server/src/oauth/
-- store.ts.
use chief_everything_officer.Base.{
  ℕ, String, Bool, true, false, some, List, [], ◌∷◌, ◌++◌, ◌≡◌, refl, sym, ◌∙◌, subst, inl, inr,
  arith, ◌==◌, ◌&&◌, ◌≤◌, suc, is_none, Bool-cases, eq_refl, eq_iff,
}
use chief_everything_officer.Base.Sql.{find_row, update_rows, count_rows}
use chief_everything_officer.Base.Sql.Laws.{count_rows-append}
use chief_everything_officer.OAuth.Records.{RefreshToken, OAuthDb}
use chief_everything_officer.OAuth.Tokens.{
  ConsumeInput, RotateInput, is_unconsumed_token, consume_token_row, rotated_refresh_token,
  is_unrevoked_in, revoke_token_row,
}
use chief_everything_officer.OAuth.History.Families.{RunIsGood, run-keeps, with_digest}
use chief_everything_officer.OAuth.History.{StoreCall, run}

-- The token is of the family and not consumed.
abbrev pub is_unconsumed_in : String → RefreshToken → Bool
is_unconsumed_in family t = t.family_id == family && is_none t.consumed_at_ms

-- How many tokens of the family are not consumed.
abbrev pub unconsumed : String → List RefreshToken → ℕ
unconsumed family = count_rows (is_unconsumed_in family)

unconsumed-revoke :
    (family other : String) (now : ℕ) (ts : List RefreshToken)
    → unconsumed family (update_rows (is_unrevoked_in other) (revoke_token_row now) ts)
      ≡ unconsumed family ts
unfolding update_rows count_rows
unconsumed-revoke family other now [] = refl
unconsumed-revoke family other now (t ∷ ts) = ground (arith, unconsumed-revoke family other now ts)

-- A consumption never adds to them.
unconsumed-consume-le :
    (family id : String) (now : ℕ) (ts : List RefreshToken)
    → unconsumed family (update_rows (is_unconsumed_token id) (consume_token_row now) ts)
      ≤ unconsumed family ts
unfolding update_rows count_rows
unconsumed-consume-le family id now [] = omega arith
unconsumed-consume-le family id now (t ∷ ts) =
    ground (arith, unconsumed-consume-le family id now ts)

-- The consumption of a token that is found takes it away from its family.
unconsumed-consume-lt :
    (family d : String) (now : ℕ) (ts : List RefreshToken) (old : RefreshToken)
    → (old.family_id == family) ≡ true
    → find_row (with_digest d) ts ≡ some old
    → is_none old.consumed_at_ms ≡ true
    → suc (unconsumed family (update_rows (is_unconsumed_token old.id) (consume_token_row now) ts))
      ≤ unconsumed family ts
unfolding find_row update_rows count_rows
unconsumed-consume-lt family d now [] old f e c = cc
unconsumed-consume-lt family d now (t ∷ ts) old f e c = ground (
  arith,
  eq_refl t.id,
  unconsumed-consume-le family old.id now ts,
  unconsumed-consume-lt family d now ts old f,
)

-- The family given to an exchange has no token yet.
abbrev pub IsFreshFamily : OAuthDb → ConsumeInput → Type 0
IsFreshFamily db input =
    count_rows (λ (t : RefreshToken). t.family_id == input.refresh_token_family_id)
      db.refresh_tokens
    ≡ 0

unconsumed-le-count :
    (family : String) (ts : List RefreshToken)
    → unconsumed family ts ≤ count_rows (λ (t : RefreshToken). t.family_id == family) ts
unfolding count_rows
unconsumed-le-count family [] = omega arith
unconsumed-le-count family (t ∷ ts) = ground (arith, unconsumed-le-count family ts)

unconsumed-one : (family : String) (t : RefreshToken) → unconsumed family (t ∷ []) ≤ 1
unfolding count_rows
unconsumed-one family t = ground arith

unconsumed-other :
    (family : String) (t : RefreshToken)
    → (t.family_id == family) ≡ false
    → unconsumed family (t ∷ []) ≡ 0
unfolding count_rows
unconsumed-other family t h = ground arith

-- A rotation takes the old token away where it adds its child.
unconsumed-rotated :
    (family : String) (db : OAuthDb) (input : RotateInput) (old : RefreshToken)
    → unconsumed family db.refresh_tokens ≤ 1
    → find_row (with_digest input.old_token_digest) db.refresh_tokens ≡ some old
    → is_none old.consumed_at_ms ≡ true
    → unconsumed family (
        update_rows (is_unconsumed_token old.id) (consume_token_row input.now_ms) db.refresh_tokens
        ++ rotated_refresh_token input old ∷ [])
      ≤ 1
unconsumed-rotated family db input old h e c = elim (Bool-cases (old.family_id == family)) [
  | inl same ↦ omega (
    arith,
    count_rows-append (is_unconsumed_in family)
        (update_rows (is_unconsumed_token old.id) (consume_token_row input.now_ms)
          db.refresh_tokens)
        (rotated_refresh_token input old ∷ []),
    unconsumed-one family (rotated_refresh_token input old),
    unconsumed-consume-lt family input.old_token_digest input.now_ms db.refresh_tokens old same e c,
  )
  | inr other ↦ omega (
    arith,
    count_rows-append (is_unconsumed_in family)
        (update_rows (is_unconsumed_token old.id) (consume_token_row input.now_ms)
          db.refresh_tokens)
        (rotated_refresh_token input old ∷ []),
    unconsumed-other family (rotated_refresh_token input old) other,
    unconsumed-consume-le family old.id input.now_ms db.refresh_tokens,
  )
]

unconsumed-exchanged :
    (family : String) (db : OAuthDb) (input : ConsumeInput) (t : RefreshToken)
    → unconsumed family db.refresh_tokens ≤ 1
    → IsFreshFamily db input
    → t.family_id ≡ input.refresh_token_family_id
    → unconsumed family (db.refresh_tokens ++ t ∷ []) ≤ 1
unconsumed-exchanged family db input t h g f = elim (Bool-cases (t.family_id == family)) [
  | inl same ↦
      let e : family ≡ input.refresh_token_family_id = sym ((eq_iff _ _).0 same) ∙ f in
      omega (
        arith,
        count_rows-append (is_unconsumed_in family) db.refresh_tokens (t ∷ []),
        unconsumed-one family t,
        subst (λ x. count_rows (λ (r : RefreshToken). r.family_id == x) db.refresh_tokens ≡ 0)
            (sym e) g,
        unconsumed-le-count family db.refresh_tokens,
      )
  | inr other ↦ omega (
    arith,
    count_rows-append (is_unconsumed_in family) db.refresh_tokens (t ∷ []),
    unconsumed-other family t other,
  )
]

-- Along any history of calls whose exchanges are given families without a token, a family that has
-- at most one unconsumed refresh token at the start has at most one at the end.
pub unconsumed-run-le :
    (family : String) (s256 : String → String) (db : OAuthDb) (cs : List StoreCall)
    → RunIsGood IsFreshFamily s256 db cs
    → unconsumed family db.refresh_tokens ≤ 1
    → unconsumed family (run s256 db cs).refresh_tokens ≤ 1
unconsumed-run-le family =
    run-keeps (λ ts. unconsumed family ts ≤ 1)
      (λ other now ts h. rw (unconsumed-revoke family other now ts) h)
      (λ db input old h e c r. unconsumed-rotated family db input old h e c) IsFreshFamily
      (λ db input t h g f. unconsumed-exchanged family db input t h g f)
