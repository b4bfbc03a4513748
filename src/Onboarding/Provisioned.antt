-- ===== src/Onboarding/Provisioned.antt =====
-- `provisionWorkspace` of services/server/src/onboarding/service.ts on a flow that has a workspace, after
-- any parts of methods.
use chief_everything_officer.Base.{
  some_inj, ℕ, String, true, false, Option, none, some, List, [], ◌∷◌, ◌≡◌, refl, sym, ap, ◌∙◌, inl,
  inr, ◌==◌, eq_iff, Bool-cases, arith, if◌then◌else◌,
}
use chief_everything_officer.Base.Sql.{find_row, update_rows}
use chief_everything_officer.Base.Sql.Laws.{find_row-passes}
use chief_everything_officer.OAuth.Scope.{is_empty}
use chief_everything_officer.Onboarding.Opened.{write_flow-some}
use chief_everything_officer.Onboarding.{FlowState, Flow}
use chief_everything_officer.Onboarding.Store.{
  Field, keep, assign, patched, apply_patch, Patch, get_flow, write_flow,
}
use chief_everything_officer.Onboarding.Service.{
  ServiceState, truthy, own_flow, workspace_already_exists,
}
use chief_everything_officer.Onboarding.Service.Sections.{
  created, partly_created, failed, start_provisioning,
}
use chief_everything_officer.Onboarding.Service.Calls.{
  ServiceCall, opens, cleans, updates, deletes, chooses, resolves, starts_provisioning,
  finishes_provisioning, finishes_recovery, finishes_verification, finishes_bootstrap,
  finishes_retry, finishes_deriving, step, run,
}
use chief_everything_officer.Onboarding.Changes.{untouched, patched_by}
use chief_everything_officer.Onboarding.Histories.{
  Fits, Effect, opening, cleaning, deleting, patching, step-Effect,
}
use chief_everything_officer.Onboarding.Workspace.{
  HasWorkspace, StaysNamed, IsOther, open-HasWorkspace, clean-HasWorkspace, delete-HasWorkspace,
}

find-write :
    (f : Flow) (id : String) (flows : List Flow) (x : Flow)
    → get_flow flows id ≡ some x
    → get_flow (update_rows (λ (g : Flow). g.id == f.id) (λ g. f) flows) id
      ≡ some (if x.id == f.id then f else x)
unfolding get_flow find_row update_rows
find-write f id [] x h = absurd (cc (h))
find-write f id (y ∷ flows) x h = elim (Bool-cases (y.id == id)) [
  | inl e ↦
      let same : y ≡ x = ground (arith, e) in
      elim (Bool-cases (y.id == f.id)) [
        | inl k ↦
            let placed : (f.id == id) ≡ true = rw⁻¹ ((eq_iff y.id f.id).0 k) e in
            let hit : (x.id == f.id) ≡ true = rw same at k in rw (k, placed, hit) refl
        | inr k ↦
            let missed : (x.id == f.id) ≡ false = rw same at k in rw (k, e, missed) (ap some same)
      ]
  | inr e ↦
      let rest = find-write f id flows x (ground (arith, e)) in
      elim (Bool-cases (y.id == f.id)) [
        | inl k ↦
            let placed : (f.id == id) ≡ false = rw⁻¹ ((eq_iff y.id f.id).0 k) e in
            rw (k, placed) rest
        | inr k ↦ rw (k, e) rest
      ]
]

named_field :
    (id : String) (d : Field (Option String)) (st : Field FlowState) (o : Option String)
    (w : String)
    → StaysNamed id d st
    → truthy o ≡ some w
    → (v : String) × (truthy (patched d o) ≡ some v)
named_field id keep st o w h k = (w, k)
named_field id (assign none) st o w h k = absurd (cc (h))
named_field id (assign (some v)) st o w h k = (v, rw h refl)

named_still :
    (id : String) (p : Patch) (f : Flow) (w : String)
    → StaysNamed id p.workspace_id p.state
    → truthy f.workspace_id ≡ some w
    → (v : String) × (truthy (patched p.workspace_id f.workspace_id) ≡ some v)
named_still id p f w h k = named_field id p.workspace_id p.state f.workspace_id w h k

-- Two rows found with one identifier are one.
found_twice :
    (flows : List Flow) (id other : String) (x f : Flow)
    → get_flow flows id ≡ some x
    → get_flow flows other ≡ some f
    → (x.id == f.id) ≡ true
    → x ≡ f
unfolding get_flow
found_twice flows id other x f h k e =
    let own = (eq_iff x.id id).0 (find_row-passes (λ (f : Flow). f.id == id) flows h) in
    let its = (eq_iff f.id other).0 (find_row-passes (λ (f : Flow). f.id == other) flows k) in
    let eq : id ≡ other = sym own ∙ ((eq_iff x.id f.id).0 e ∙ its) in
    some_inj (sym h ∙ (ap (get_flow flows) eq ∙ k))

write-HasWorkspace :
    (id user other : String) (p : Patch) (now : ℕ) (f : Flow) (flows after : List Flow)
    → StaysNamed other p.workspace_id p.state
    → get_flow flows other ≡ some f
    → write_flow flows (apply_patch p now f) ≡ some after
    → HasWorkspace id user flows
    → HasWorkspace id user after
write-HasWorkspace id user other p now f flows after fits there wrote h =
    let g = apply_patch p now f in
    let found = find-write g id flows h.flow h.there in
    let (free, eq) = write_flow-some flows g after wrote in
    elim (Bool-cases (h.flow.id == f.id)) [
      | inr ne ↦ record {
        flow = h.flow;
        workspace = h.workspace;
        there = rw⁻¹ eq (found ∙ rw ne refl);
        same_user = h.same_user;
        named = h.named;
      }
      | inl same ↦
          let eqf = found_twice flows id other h.flow f h.there there same in
          let (v, named) =
            named_still other p f h.workspace fits
              (ap (λ (x : Flow). truthy x.workspace_id) (sym eqf) ∙ h.named) in
          record {
            flow = g;
            workspace = v;
            there = rw⁻¹ eq (found ∙ rw same refl);
            same_user = ap (λ (x : Flow). x.user_id) (sym eqf) ∙ h.same_user;
            named = named;
          }
    ]

Effect-HasWorkspace :
    (id user : String) (before after : List Flow)
    → Effect StaysNamed (IsOther id) before after
    → HasWorkspace id user before
    → HasWorkspace id user after
Effect-HasWorkspace id user before after (opening owner subject ttl host uuid now e) h =
    rw e (open-HasWorkspace id user before owner subject ttl host uuid now h)
Effect-HasWorkspace id user before after (cleaning now e) h =
    rw e (clean-HasWorkspace id user before now h)
Effect-HasWorkspace id user before after (deleting other d e) h =
    rw e (delete-HasWorkspace id user other before d h)
Effect-HasWorkspace id user before after (patching (untouched e)) h = rw e h
Effect-HasWorkspace id user before after (patching (patched_by other p now f fits there wrote)) h =
    write-HasWorkspace id user other p now f before after fits there wrote h

-- The workspaces that the repository service names have a name, no update empties a workspace, and
-- the flow is not deleted.
abbrev pub NamesWorkspace : String → ServiceCall → Type 0
NamesWorkspace id (updates other p now) = StaysNamed other p.workspace_id p.state
NamesWorkspace id (deletes other) = IsOther id other
NamesWorkspace id (finishes_provisioning f (created w r i) now) = is_empty w ≡ false
NamesWorkspace id (finishes_recovery other w i now) = is_empty w ≡ false
NamesWorkspace id _ = Unit

abbrev pub AllName : String → List ServiceCall → Type 0
AllName id [] = Unit
AllName id (c ∷ cs) = NamesWorkspace id c × AllName id cs

created_name : {w r i v q j : String} → created w r i ≡ created v q j → w ≡ v
created_name e = cc

Fits-StaysNamed :
    (id : String) (c : ServiceCall) → NamesWorkspace id c → Fits StaysNamed (IsOther id) c
Fits-StaysNamed flow (opens user subject ttl host uuid now) h = tt
Fits-StaysNamed flow (cleans now) h = tt
Fits-StaysNamed flow (updates id p now) h = h
Fits-StaysNamed flow (deletes id) h = h
Fits-StaysNamed flow (chooses id user name now) h = tt
Fits-StaysNamed flow (resolves id answers now) h = tt
Fits-StaysNamed flow (starts_provisioning id user now) h = tt
Fits-StaysNamed flow (finishes_provisioning f (created w r i) now) h =
    (λ v q j e. rw⁻¹ (created_name e) h, (tt, tt))
Fits-StaysNamed flow (finishes_provisioning f (partly_created r m) now) h =
    (λ v q j e. absurd (cc (e)), (tt, tt))
Fits-StaysNamed flow (finishes_provisioning f (failed n m) now) h =
    (λ v q j e. absurd (cc (e)), (tt, tt))
Fits-StaysNamed flow (finishes_recovery id w i now) h = h
Fits-StaysNamed flow (finishes_verification id w a now) h = (tt, tt)
Fits-StaysNamed flow (finishes_bootstrap id r now) h = (λ k. tt, tt)
Fits-StaysNamed flow (finishes_retry id r now) h = λ k. tt
Fits-StaysNamed flow (finishes_deriving f r now) h = λ k. tt

run-HasWorkspace :
    (id user : String) (s : ServiceState) (cs : List ServiceCall)
    → AllName id cs
    → HasWorkspace id user s.flows
    → HasWorkspace id user (run s cs).flows
unfolding run
run-HasWorkspace id user s [] n h = h
run-HasWorkspace id user s (c ∷ cs) n h = run-HasWorkspace id user (step s c) cs n.1 (
    Effect-HasWorkspace id user s.flows _
      (step-Effect StaysNamed (IsOther id) s c (Fits-StaysNamed id c n.0)) h)

-- When a flow has a workspace, then after any parts of the methods in any order, whose created and
-- recovered workspaces have names, with updates from elsewhere that leave each flow its workspace or
-- give it one, and deletions of other flows, a further request to provision it asks GitHub for nothing and is refused
-- because the workspace is there.
pub provisioned_once :
    (s : ServiceState) (cs : List ServiceCall) (f : Flow) (workspace : String) (now : ℕ)
    → get_flow s.flows f.id ≡ some f
    → truthy f.workspace_id ≡ some workspace
    → AllName f.id cs
    → start_provisioning (run s cs) f.id f.user_id now ≡ (run s cs, workspace_already_exists)
unfolding start_provisioning own_flow
provisioned_once s cs f workspace now there named n =
    let h : HasWorkspace f.id f.user_id (run s cs).flows =
      run-HasWorkspace f.id f.user_id s cs n (record {
        flow = f;
        workspace = workspace;
        there = there;
        same_user = refl;
        named = named;
      }) in
    let owner : (h.flow.user_id == f.user_id) ≡ true =
      (eq_iff h.flow.user_id f.user_id).1 h.same_user in
    rw (start_provisioning, own_flow, h.there, owner, h.named) refl
