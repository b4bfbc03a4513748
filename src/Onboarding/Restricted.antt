-- ===== src/Onboarding/Restricted.antt =====
-- When `verifyLiveInstallationScope` of services/server/src/onboarding/service.ts succeeds.
use chief_everything_officer.Base.{
  ℕ, true, false, Option, none, some, List, [], ◌∷◌, ◌≡◌, ◌↔◌, refl, ap, inl, inr, ◌==◌, eq_iff,
  eq_refl, Bool-cases, Option-cases, arith, nat_eq,
}
use chief_everything_officer.Onboarding.Service.Scope.{
  ScopeAnswers, is_exactly, check_accessible, check_live, verify_live_installation_scope,
}

-- The installation of the bound repository is live and not suspended, its access is restricted to
-- selected repositories, and the list of these holds the bound repository and nothing else.
pub record IsRestricted (a : ScopeAnswers) : Type 0 where
  pub target : ℕ
  pub bound : a.bound_repository ≡ some target
  pub row : a.has_installation_row ≡ true
  pub selected : a.live ≡ some (false, "selected")
  pub token : a.has_token ≡ true
  pub only : a.accessible ≡ some (target ∷ [])

is_exactly-eq : (ids : List ℕ) (n : ℕ) → is_exactly ids n ≡ true → ids ≡ n ∷ []
is_exactly-eq [] n h = absurd (cc (h))
is_exactly-eq (m ∷ []) n h = let e : m ≡ n = ground (arith, h) in rw e refl
is_exactly-eq (m ∷ k ∷ ms) n h = absurd (cc (h))

check_accessible-eq :
    (n : ℕ) (o : Option (List ℕ)) → check_accessible n o ≡ none → o ≡ some (n ∷ [])
unfolding check_accessible
check_accessible-eq n none h = absurd (cc (h))
check_accessible-eq n (some ids) h = elim (Bool-cases (is_exactly ids n)) [
  | inl e ↦ ap some (is_exactly-eq ids n e)
  | inr e ↦ absurd (cc (rw e at h))
]

restricted : (a : ScopeAnswers) → verify_live_installation_scope a ≡ none → IsRestricted a
unfolding verify_live_installation_scope check_live
restricted a h = elim (Option-cases a.bound_repository) [
  | inl e ↦ absurd (cc (rw (verify_live_installation_scope, e) at h))
  | inr (target, b) ↦ elim (Bool-cases a.has_installation_row) [
    | inr e ↦ absurd (cc (rw (verify_live_installation_scope, b, e) at h))
    | inl r ↦ elim (Option-cases a.live) [
      | inl e ↦ absurd (cc (rw (verify_live_installation_scope, b, r, check_live, e) at h))
      | inr ((suspended, selection), l) ↦ elim (Bool-cases suspended) [
        | inl e ↦ absurd (cc (rw (verify_live_installation_scope, b, r, check_live, l, e) at h))
        | inr s ↦ elim (Bool-cases (selection == "selected")) [
          | inr e ↦
              absurd (cc (rw (verify_live_installation_scope, b, r, check_live, l, s, e) at h))
          | inl t ↦ elim (Bool-cases a.has_token) [
            | inr e ↦
                absurd (cc (rw (verify_live_installation_scope, b, r, check_live, l, s, t, e) at h))
            | inl k ↦ record {
              target = target;
              bound = b;
              row = r;
              selected = rw (l, s, (eq_iff selection "selected").0 t) refl;
              token = k;
              only =
                  check_accessible-eq target a.accessible
                    (rw (verify_live_installation_scope, b, r, check_live, l, s, t, k) at h);
            }
          ]
        ]
      ]
    ]
  ]
]

-- The verification succeeds exactly when the live access of the installation is the bound
-- repository alone.
pub verify-IsRestricted :
    (a : ScopeAnswers) → (verify_live_installation_scope a ≡ none) ↔ IsRestricted a
unfolding verify_live_installation_scope check_live check_accessible
verify-IsRestricted a = (
  restricted a,
  λ h.
      let yes : nat_eq h.target h.target ≡ true = ground arith in
      rw
        (
          verify_live_installation_scope,
          h.bound,
          h.row,
          check_live,
          h.selected,
          eq_refl "selected",
          h.token,
          check_accessible,
          h.only,
          yes,
        )
        refl,
)
