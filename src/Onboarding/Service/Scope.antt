-- ===== src/Onboarding/Service/Scope.antt =====
-- `verifyLiveInstallationScope` and the test of a live installation of
-- services/server/src/onboarding/service.ts.
use chief_everything_officer.Base.{
  ℕ, String, Bool, false, Option, none, some, List, [], ◌∷◌, ◌&&◌, ◌==◌, not, nat_eq, if◌then◌else◌,
}
use chief_everything_officer.Onboarding.Service.{
  Installation, LiveInstallation, ScopeFailure, still_all, scope_mismatch, verification_failed,
}

-- The live installation is the one of the row, and neither is suspended.
unfoldable pub is_live : Installation → LiveInstallation → Bool
is_live row live =
    live.id == row.github_installation_id
    && (live.app_id == row.github_app_id
        && (live.account_id == row.account_id
            && (live.account_type == row.account_type
                && (not live.is_suspended && not row.is_suspended))))

-- The candidates whose request to GitHub succeeded with a live installation.
unfoldable pub live_candidates : List (Installation × Option LiveInstallation) → List Installation
unfolding is_live
live_candidates [] = []
live_candidates ((row, none) ∷ more) = live_candidates more
live_candidates ((row, some live) ∷ more) =
    let rest = live_candidates more in if is_live row live then row ∷ rest else rest

-- The answers that the verification of a workspace works with, `none` where the row is missing or
-- the request failed: the number of the repository that is bound, whether the installation has a
-- row, the live installation (whether it is suspended, and its `repository_selection`), whether a
-- token was minted, and the numbers of the repositories that it reaches.
pub record ScopeAnswers : Type 0 where
  pub bound_repository : Option ℕ
  pub has_installation_row : Bool
  pub live : Option (Bool × String)
  pub has_token : Bool
  pub accessible : Option (List ℕ)

-- The reasons differ only in the message when the bound repository is there or not.
abbrev pub is_exactly : List ℕ → ℕ → Bool
is_exactly [] n = false
is_exactly (m ∷ []) n = nat_eq m n
is_exactly (m ∷ k ∷ ms) n = false

unfoldable pub check_accessible : ℕ → Option (List ℕ) → Option ScopeFailure
check_accessible target none = some verification_failed
check_accessible target (some ids) = if is_exactly ids target then none else some scope_mismatch

unfoldable pub check_live : ScopeAnswers → ℕ → Option ScopeFailure
unfolding check_accessible
check_live a target = elim a.live [
  | none ↦ some verification_failed
  | some (suspended, selection) ↦
      if suspended
      then some verification_failed
      else if not (selection == "selected")
      then some still_all
      else if not a.has_token
      then some verification_failed
      else check_accessible target a.accessible
]

-- `none` is success.
unfoldable pub verify_live_installation_scope : ScopeAnswers → Option ScopeFailure
unfolding check_live
verify_live_installation_scope a = elim a.bound_repository [
  | none ↦ some verification_failed
  | some target ↦ if a.has_installation_row then check_live a target else some verification_failed
]
