-- ===== src/Onboarding/Changes.antt =====
-- How the parts of the methods of services/server/src/onboarding change the table of flows.
use chief_everything_officer.Base.{
  some_inj, ℕ, String, true, false, Option, some, List, [], ◌∷◌, ◌≡◌, refl, sym, ap, ◌∙◌, inl, inr,
  ◌==◌, Bool-cases, Option-cases,
}
use chief_everything_officer.Base.Sql.{find_row}
use chief_everything_officer.Identity.{RepositoryBinding}
use chief_everything_officer.OAuth.Scope.{trim}
use chief_everything_officer.Onboarding.{
  FlowState, Flow, awaiting_github_access, provisioning, awaiting_repository_restriction,
  awaiting_repository_choice, recovery_required, ready_to_resume,
}
use chief_everything_officer.Onboarding.Store.{
  Patch, Field, keep, assign, Stored, not_found, constraint_failed, stored, apply_patch, get_flow,
  write_flow, update_flow,
}
use chief_everything_officer.Onboarding.Service.{
  ServiceState, Installation, LiveInstallation, Provisioning, Reply, chosen, replied, patch_flow,
  own_flow, truthy, submit_repository_choice, is_repository_name,
}
use chief_everything_officer.Onboarding.Service.Scope.{
  ScopeAnswers, live_candidates, verify_live_installation_scope,
}
use chief_everything_officer.Onboarding.Service.Bootstrap.{
  Bootstrapped, answered, threw, is_ready, may_become_ready, finish_verification, finish_bootstrap,
  finish_retry, finish_deriving, clear_repository_binding_scope_verified,
  mark_repository_binding_scope_verified,
}
use chief_everything_officer.Onboarding.Service.Sections.{
  Creation, created, partly_created, failed, choose_installation, resolve_installation_state,
  start_provisioning, finish_provisioning, finish_recovery, is_conflict,
}

-- The bootstrap service answered that the workspace is ready.
abbrev pub IsReady : Bootstrapped → Type 0
IsReady (answered result code message) = is_ready result ≡ true
IsReady (threw message) = true ≡ false

-- A call left the table as it was, or wrote one row with a patch whose workspace and state fit.
pub data Patched (P : String → Field (Option String) → Field FlowState → Type 0)
    (before after : List Flow) : Type 0 where
  untouched : after ≡ before → Patched P before after
  patched_by :
      (id : String) (p : Patch) (now : ℕ) (f : Flow)
      → P id p.workspace_id p.state
      → get_flow before id ≡ some f
      → write_flow before (apply_patch p now f) ≡ some after
      → Patched P before after

marked-flows :
    (s : ServiceState) (w : String) (now : ℕ) (t : ServiceState)
    → mark_repository_binding_scope_verified s w now ≡ some t
    → t.flows ≡ s.flows
unfolding mark_repository_binding_scope_verified
marked-flows s w now t h =
    elim (Option-cases (find_row (λ (b : RepositoryBinding). b.workspace_id == w) s.bindings)) [
      | inl e ↦ absurd (cc (rw (mark_repository_binding_scope_verified, e) at h))
      | inr (b, e) ↦
          let made = rw (mark_repository_binding_scope_verified, e) at h in
          sym (ap (λ (s : ServiceState). s.flows) (some_inj made))
    ]

module _ (P : String → Field (Option String) → Field FlowState → Type 0) where
  pub update_flow-Patched :
      (flows : List Flow) (id : String) (p : Patch) (now : ℕ)
      → P id p.workspace_id p.state
      → Patched P flows (update_flow flows id p now).0
  unfolding update_flow
  update_flow-Patched flows id p now h = elim (Option-cases (get_flow flows id)) [
    | inl e ↦ untouched (rw (update_flow, e) refl)
    | inr (f, e) ↦ elim (Option-cases (write_flow flows (apply_patch p now f))) [
      | inl w ↦ untouched (rw (update_flow, e, w) refl)
      | inr (after, w) ↦ patched_by id p now f h e (w ∙ rw (update_flow, e, w) refl)
    ]
  ]

  replied-Patched :
      (s : ServiceState) (o : List Flow × Stored) (reply : Flow → Reply)
      → Patched P s.flows o.0
      → Patched P s.flows (replied o s reply).0.flows
  replied-Patched s (flows, not_found) reply h = untouched refl
  replied-Patched s (flows, constraint_failed) reply h = untouched refl
  replied-Patched s (flows, stored f) reply h = h

  patch_flow-Patched :
      (s : ServiceState) (id : String) (p : Patch) (now : ℕ) (reply : Flow → Reply)
      → P id p.workspace_id p.state
      → Patched P s.flows (patch_flow s id p now reply).0.flows
  unfolding patch_flow
  patch_flow-Patched s id p now reply h =
      replied-Patched s (update_flow s.flows id p now) reply
        (update_flow-Patched s.flows id p now h)

  pub submit_repository_choice-Patched :
      (s : ServiceState) (id user name : String) (now : ℕ)
      → P id keep (assign awaiting_github_access)
      → Patched P s.flows (submit_repository_choice s id user name now).0.flows
  unfolding submit_repository_choice
  submit_repository_choice-Patched s id user name now h = elim (Option-cases (own_flow s id user)) [
    | inl e ↦ rw (submit_repository_choice, e) (untouched refl)
    | inr (f, e) ↦ elim (Bool-cases (is_repository_name (trim name))) [
      | inl v ↦ rw (submit_repository_choice, e, v) (patch_flow-Patched s id _ now chosen h)
      | inr v ↦ rw (submit_repository_choice, e, v) (untouched refl)
    ]
  ]

  pub start_provisioning-Patched :
      (s : ServiceState) (id user : String) (now : ℕ)
      → P id keep (assign provisioning)
      → Patched P s.flows (start_provisioning s id user now).0.flows
  unfolding start_provisioning
  start_provisioning-Patched s id user now h = elim (Option-cases (own_flow s id user)) [
    | inl e ↦ rw (start_provisioning, e) (untouched refl)
    | inr (f, e) ↦ elim (Option-cases (truthy f.workspace_id)) [
      | inr (w, v) ↦ rw (start_provisioning, e, v) (untouched refl)
      | inl v ↦ elim (Option-cases (truthy f.repository_id)) [
        | inr (r, u) ↦ rw (start_provisioning, e, v, u) (untouched refl)
        | inl u ↦ rw (start_provisioning, e, v, u) (patch_flow-Patched s id _ now _ h)
      ]
    ]
  ]

  choose-Patched :
      (s : ServiceState) (id : String) (now : ℕ) (rows : List Installation)
      → P id keep keep
      → Patched P s.flows (choose_installation s id now rows).0.flows
  choose-Patched s id now [] h = untouched refl
  choose-Patched s id now (one ∷ []) h = patch_flow-Patched s id _ now _ h
  choose-Patched s id now (one ∷ two ∷ more) h = untouched refl

  pub resolve-Patched :
      (s : ServiceState) (id : String) (answers : List (Installation × Option LiveInstallation))
      (now : ℕ)
      → P id keep keep
      → Patched P s.flows (resolve_installation_state s id answers now).0.flows
  unfolding resolve_installation_state
  resolve-Patched s id answers now h = choose-Patched s id now (live_candidates answers) h

  pub finish_provisioning-Patched :
      (s : ServiceState) (f : Flow) (c : Creation) (now : ℕ)
      → ((w r i : String)
          → c ≡ created w r i
          → P f.id (assign (some w)) (assign awaiting_repository_restriction))
      → P f.id keep (assign recovery_required)
      → P f.id keep (assign awaiting_repository_choice)
      → Patched P s.flows (finish_provisioning s f c now).0.flows
  unfolding finish_provisioning
  finish_provisioning-Patched s f (created w r i) now h k l =
      patch_flow-Patched s f.id _ now _ (h w r i refl)
  finish_provisioning-Patched s f (partly_created r m) now h k l =
      patch_flow-Patched s f.id _ now _ k
  finish_provisioning-Patched s f (failed code message) now h k l =
      elim (Bool-cases (is_conflict code message)) [
        | inl e ↦ rw e (patch_flow-Patched s f.id _ now _ l)
        | inr e ↦ rw e (patch_flow-Patched s f.id _ now _ k)
      ]

  pub finish_recovery-Patched :
      (s : ServiceState) (id w i : String) (now : ℕ)
      → P id (assign (some w)) (assign awaiting_repository_restriction)
      → Patched P s.flows (finish_recovery s id w i now).0.flows
  unfolding finish_recovery
  finish_recovery-Patched s id w i now h = patch_flow-Patched s id _ now _ h

  pub finish_verification-Patched :
      (s : ServiceState) (id w : String) (a : ScopeAnswers) (now : ℕ)
      → P id keep keep
      → P id keep (assign provisioning)
      → Patched P s.flows (finish_verification s id w a now).0.flows
  unfolding finish_verification
  finish_verification-Patched s id w a now h k =
      elim (Option-cases (verify_live_installation_scope a)) [
        | inr (why, e) ↦
            rw (finish_verification, e)
              (patch_flow-Patched (clear_repository_binding_scope_verified s w) id _ now _ h)
        | inl e ↦ elim (Option-cases (mark_repository_binding_scope_verified s w now)) [
          | inl m ↦ rw (finish_verification, e, m) (untouched refl)
          | inr (marked, m) ↦
              rw (finish_verification, e, m)
                (rw⁻¹ (marked-flows s w now marked m) (patch_flow-Patched marked id _ now _ k))
        ]
      ]

  pub finish_bootstrap-Patched :
      (s : ServiceState) (id : String) (r : Bootstrapped) (now : ℕ)
      → (IsReady r → P id keep (assign ready_to_resume))
      → P id keep (assign recovery_required)
      → Patched P s.flows (finish_bootstrap s id r now).0.flows
  unfolding finish_bootstrap
  finish_bootstrap-Patched s id (threw m) now h k = patch_flow-Patched s id _ now _ k
  finish_bootstrap-Patched s id (answered result code m) now h k =
      elim (Bool-cases (is_ready result)) [
        | inl e ↦ rw e (patch_flow-Patched s id _ now _ (h e))
        | inr e ↦ rw e (patch_flow-Patched s id _ now _ k)
      ]

  pub finish_retry-Patched :
      (s : ServiceState) (id : String) (r : Bootstrapped) (now : ℕ)
      → (IsReady r → P id keep (assign ready_to_resume))
      → Patched P s.flows (finish_retry s id r now).0.flows
  unfolding finish_retry
  finish_retry-Patched s id (threw m) now h = untouched refl
  finish_retry-Patched s id (answered result code m) now h = elim (Bool-cases (is_ready result)) [
    | inl e ↦ rw e (patch_flow-Patched s id _ now _ (h e))
    | inr e ↦ rw e (untouched refl)
  ]

  pub finish_deriving-Patched :
      (s : ServiceState) (f : Flow) (r : Provisioning) (now : ℕ)
      → (is_ready r ≡ true → P f.id keep (assign ready_to_resume))
      → Patched P s.flows (finish_deriving s f r now).0.flows
  unfolding finish_deriving
  finish_deriving-Patched s f r now h = elim (Bool-cases (is_ready r)) [
    | inl e ↦ elim (Bool-cases (may_become_ready f.state)) [
      | inl m ↦ rw (e, m) (patch_flow-Patched s f.id _ now _ (h e))
      | inr m ↦ rw (e, m) (untouched refl)
    ]
    | inr e ↦ rw e (untouched refl)
  ]
