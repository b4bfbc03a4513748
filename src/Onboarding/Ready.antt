-- ===== src/Onboarding/Ready.antt =====
-- The state READY_TO_RESUME in the flows of services/server/src/onboarding/store.ts: the parts of methods
-- of service.ts, and updates from elsewhere, that may set it.
use chief_everything_officer.Base.{
  ℕ, String, Bool, true, false, Option, some, List, [], ◌∷◌, ◌&&◌, ◌≡◌, refl, inl, inr, ◌==◌,
  eq_iff, Bool-cases, arith, All, All-append,
}
use chief_everything_officer.Base.Sql.{update_rows}
use chief_everything_officer.Base.Sql.Laws.{find_row-passes, find_row-All}
use chief_everything_officer.Onboarding.Opened.{insert_flow-rule, open-rule, write_flow-some}
use chief_everything_officer.Onboarding.{FlowState, Flow, ready_to_resume}
use chief_everything_officer.Onboarding.Store.{
  Field, keep, assign, patched, apply_patch, Patch, get_flow, write_flow, note_host, is_noted,
  retire, insert_flow, get_or_create_active_flow_in_tx, cleanup_expired, delete_flow,
}
use chief_everything_officer.Onboarding.Service.{ServiceState}
use chief_everything_officer.Onboarding.Service.Bootstrap.{is_ready}
use chief_everything_officer.Onboarding.Service.Calls.{
  ServiceCall, opens, cleans, updates, deletes, chooses, resolves, starts_provisioning,
  finishes_provisioning, finishes_recovery, finishes_verification, finishes_bootstrap,
  finishes_retry, finishes_deriving, step, run,
}
use chief_everything_officer.Onboarding.Changes.{IsReady, untouched, patched_by}
use chief_everything_officer.Onboarding.Active.{delete-All}
use chief_everything_officer.Onboarding.Histories.{
  Fits, Effect, AnyFlow, opening, cleaning, deleting, patching, step-Effect,
}

abbrev pub is_resumable : FlowState → Bool
is_resumable ready_to_resume = true
is_resumable _ = false

-- The row has another identifier or is not ready to resume.
abbrev pub IsUnready : String → Flow → Type 0
IsUnready id f = (f.id == id && is_resumable f.state) ≡ false

abbrev sets_ready : Field FlowState → Bool
sets_ready keep = false
sets_ready (assign st) = is_resumable st

-- A patch of the flow does not make it ready.
abbrev SetsUnready : String → String → Field (Option String) → Field FlowState → Type 0
SetsUnready id other w st = (other == id && sets_ready st) ≡ false

module _ (id : String) where
  update-IsUnready :
      (p : Flow → Bool) (u : Flow → Flow) (flows : List Flow)
      → ((f : Flow) → IsUnready id f → IsUnready id (u f))
      → All (IsUnready id) flows
      → All (IsUnready id) (update_rows p u flows)
  unfolding update_rows
  update-IsUnready p u [] h k = tt
  update-IsUnready p u (f ∷ flows) h k = elim (Bool-cases (p f)) [
    | inl e ↦ rw e (h f k.0, update-IsUnready p u flows h k.1)
    | inr e ↦ rw e (k.0, update-IsUnready p u flows h k.1)
  ]

  note-IsUnready :
      (host : Option String) (now : ℕ) (f : Flow)
      → IsUnready id f
      → IsUnready id (note_host host now f)
  note-IsUnready host now f h = elim (Bool-cases (is_noted host f.host_oauth_request_id)) [
    | inl e ↦ rw e h
    | inr e ↦ rw e h
  ]

  and_false : (b : Bool) → (b && false) ≡ false
  and_false b = ground arith

  insert-IsUnready :
      (flows before : List Flow) (f : Flow)
      → is_resumable f.state ≡ false
      → All (IsUnready id) flows
      → All (IsUnready id) before
      → All (IsUnready id) (insert_flow flows f before).0
  insert-IsUnready flows before f e h k =
      insert_flow-rule (All (IsUnready id)) flows f before k
        (λ free. All-append (IsUnready id) flows (f ∷ []) h (rw e (and_false (f.id == id)), tt))

  open-IsUnready :
      (flows : List Flow) (user subject : String) (ttl : ℕ) (host : Option String) (uuid : String)
      (now : ℕ)
      → All (IsUnready id) flows
      → All (IsUnready id) (get_or_create_active_flow_in_tx flows user subject ttl host uuid now).0
  open-IsUnready flows user subject ttl host uuid now h =
      open-rule (All (IsUnready id)) flows user subject ttl host uuid now
        (λ f.
          update-IsUnready (λ (g : Flow). g.id == f.id) (note_host host now) flows
            (note-IsUnready host now) h)
        (insert-IsUnready flows flows _ refl h h)
        (λ f.
          insert-IsUnready _ flows _ refl
            (update-IsUnready (λ (g : Flow). g.id == f.id) (retire now) flows
              (λ g k. and_false (g.id == id)) h)
            h)

  patched-unready :
      (st : Field FlowState) (old : FlowState) (own : Bool)
      → (own && is_resumable old) ≡ false
      → (own && sets_ready st) ≡ false
      → (own && is_resumable (patched st old)) ≡ false
  patched-unready keep old own h k = h
  patched-unready (assign st) old own h k = k

  write-IsUnready :
      (other : String) (p : Patch) (now : ℕ) (f : Flow) (flows after : List Flow)
      → SetsUnready id other p.workspace_id p.state
      → get_flow flows other ≡ some f
      → write_flow flows (apply_patch p now f) ≡ some after
      → All (IsUnready id) flows
      → All (IsUnready id) after
  unfolding get_flow
  write-IsUnready other p now f flows after fits there wrote h =
      let g = apply_patch p now f in
      let own : f.id ≡ other =
        (eq_iff f.id other).0 (find_row-passes (λ (f : Flow). f.id == other) flows there) in
      let old : IsUnready id f =
        find_row-All (λ (f : Flow). f.id == other) (IsUnready id) flows h there in
      let fits' : (f.id == id && sets_ready p.state) ≡ false = rw own fits in
      let new : IsUnready id g = patched-unready p.state f.state (f.id == id) old fits' in
      let (free, eq) = write_flow-some flows g after wrote in
      rw⁻¹ eq (update-IsUnready (λ (x : Flow). x.id == f.id) (λ x. g) flows (λ x e. new) h)

  Effect-IsUnready :
      (before after : List Flow)
      → Effect (SetsUnready id) AnyFlow before after
      → All (IsUnready id) before
      → All (IsUnready id) after
  unfolding cleanup_expired delete_flow
  Effect-IsUnready before after (opening owner subject ttl host uuid now e) h =
      rw e (open-IsUnready before owner subject ttl host uuid now h)
  Effect-IsUnready before after (cleaning now e) h = rw e (delete-All (IsUnready id) _ before h)
  Effect-IsUnready before after (deleting other d e) h = rw e (delete-All (IsUnready id) _ before h)
  Effect-IsUnready before after (patching (untouched e)) h = rw e h
  Effect-IsUnready before after (patching (patched_by other p now f fits there wrote)) h =
      write-IsUnready other p now f before after fits there wrote h

  -- The call is no answer of the bootstrap service that the workspace of the flow is ready, and no
  -- update from elsewhere that sets the flow to ready.
  abbrev pub IsOtherAnswer : ServiceCall → Type 0
  IsOtherAnswer (updates other p now) = SetsUnready id other p.workspace_id p.state
  IsOtherAnswer (finishes_bootstrap other r now) = IsReady r → (other == id) ≡ false
  IsOtherAnswer (finishes_retry other r now) = IsReady r → (other == id) ≡ false
  IsOtherAnswer (finishes_deriving f r now) = is_ready r ≡ true → (f.id == id) ≡ false
  IsOtherAnswer _ = Unit

  Fits-SetsUnready : (c : ServiceCall) → IsOtherAnswer c → Fits (SetsUnready id) AnyFlow c
  Fits-SetsUnready (opens user subject ttl host uuid now) h = tt
  Fits-SetsUnready (cleans now) h = tt
  Fits-SetsUnready (updates other p now) h = h
  Fits-SetsUnready (deletes other) h = tt
  Fits-SetsUnready (chooses other user name now) h = and_false (other == id)
  Fits-SetsUnready (resolves other answers now) h = and_false (other == id)
  Fits-SetsUnready (starts_provisioning other user now) h = and_false (other == id)
  Fits-SetsUnready (finishes_provisioning f c now) h =
      (λ w r i e. and_false (f.id == id), (and_false (f.id == id), and_false (f.id == id)))
  Fits-SetsUnready (finishes_recovery other w i now) h = and_false (other == id)
  Fits-SetsUnready (finishes_verification other w a now) h =
      (and_false (other == id), and_false (other == id))
  Fits-SetsUnready (finishes_bootstrap other r now) h =
      (λ k. ground (arith, h k), and_false (other == id))
  Fits-SetsUnready (finishes_retry other r now) h = λ k. ground (arith, h k)
  Fits-SetsUnready (finishes_deriving f r now) h = λ k. ground (arith, h k)

  -- As long as no part of a method brings the answer of the bootstrap service that the workspace of
  -- a flow is ready, and no update from elsewhere (the onboarding router has one) sets the flow's
  -- state to ready to resume, the flow does not become ready to resume.
  pub run-IsUnready :
      (s : ServiceState) (cs : List ServiceCall)
      → All IsOtherAnswer cs
      → All (IsUnready id) s.flows
      → All (IsUnready id) (run s cs).flows
  unfolding run
  run-IsUnready s [] n h = h
  run-IsUnready s (c ∷ cs) n h = run-IsUnready (step s c) cs n.1 (
      Effect-IsUnready s.flows _ (step-Effect (SetsUnready id) AnyFlow s c (Fits-SetsUnready c n.0))
        h)
