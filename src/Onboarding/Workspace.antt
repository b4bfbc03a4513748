-- ===== src/Onboarding/Workspace.antt =====
-- A flow of services/server/src/onboarding/store.ts that has a workspace, when the store opens,
-- cleans or deletes flows.
use chief_everything_officer.Base.{
  ℕ, String, Bool, true, false, Option, none, some, List, [], ◌∷◌, ◌≡◌, refl, ap, ◌∙◌, inl, inr,
  ◌==◌, Bool-cases, Option-cases, arith, eq_iff,
}
use chief_everything_officer.Base.Sql.{find_row, update_rows}
use chief_everything_officer.Base.Sql.Laws.{find_row-passes, find_row-append, find_row-update}
use chief_everything_officer.OAuth.Scope.{is_empty}
use chief_everything_officer.Onboarding.Opened.{insert_flow-rule, open-rule}
use chief_everything_officer.Onboarding.{FlowState, Flow}
use chief_everything_officer.Onboarding.Store.{
  Field, keep, assign, get_flow, note_host, is_noted, retire, insert_flow,
  get_or_create_active_flow_in_tx, delete_rows, delete_flow, cleanup_expired, is_stale,
}
use chief_everything_officer.Onboarding.Service.{truthy}

-- The flow is there, with its user and a workspace.
pub record HasWorkspace (id user : String) (flows : List Flow) : Type 0 where
  pub flow : Flow
  pub workspace : String
  pub there : get_flow flows id ≡ some flow
  pub same_user : flow.user_id ≡ user
  pub named : truthy flow.workspace_id ≡ some workspace

-- A patch leaves the workspace or names one.
abbrev pub StaysNamed : String → Field (Option String) → Field FlowState → Type 0
StaysNamed id keep st = Unit
StaysNamed id (assign none) st = true ≡ false
StaysNamed id (assign (some w)) st = is_empty w ≡ false

-- A flow other than the one with the identifier.
abbrev pub IsOther : String → String → Type 0
IsOther id other = (other == id) ≡ false

-- An update of rows that keeps identifiers, users and workspaces.
record IsGentle (f g : Flow) : Type 0 where
  same_id : g.id ≡ f.id
  same_user : g.user_id ≡ f.user_id
  same_workspace : g.workspace_id ≡ f.workspace_id

module _ (p : Flow → Bool) (u : Flow → Flow) (gentle : (f : Flow) → IsGentle f (u f)) where
  update-HasWorkspace :
      (id user : String) (flows : List Flow)
      → HasWorkspace id user flows
      → HasWorkspace id user (update_rows p u flows)
  unfolding get_flow
  update-HasWorkspace id user flows h =
      let found =
        find_row-update (λ (f : Flow). f.id == id) p u (λ f. ap (λ i. i == id) (gentle f).same_id)
          flows h.there in
      elim (Bool-cases (p h.flow)) [
        | inl e ↦ record {
          flow = u h.flow;
          workspace = h.workspace;
          there = found ∙ rw e refl;
          same_user = (gentle h.flow).same_user ∙ h.same_user;
          named = ap truthy (gentle h.flow).same_workspace ∙ h.named;
        }
        | inr e ↦ record {
          flow = h.flow;
          workspace = h.workspace;
          there = found ∙ rw e refl;
          same_user = h.same_user;
          named = h.named;
        }
      ]

note-IsGentle : (host : Option String) (now : ℕ) (f : Flow) → IsGentle f (note_host host now f)
note-IsGentle host now f = elim (Bool-cases (is_noted host f.host_oauth_request_id)) [
  | inl e ↦ rw e (record { same_id = refl; same_user = refl; same_workspace = refl })
  | inr e ↦ rw e (record { same_id = refl; same_user = refl; same_workspace = refl })
]

retire-IsGentle : (now : ℕ) (f : Flow) → IsGentle f (retire now f)
retire-IsGentle now f = record { same_id = refl; same_user = refl; same_workspace = refl }

insert-HasWorkspace :
    (id user : String) (flows before : List Flow) (f : Flow)
    → HasWorkspace id user flows
    → HasWorkspace id user before
    → HasWorkspace id user (insert_flow flows f before).0
unfolding get_flow
insert-HasWorkspace id user flows before f h k =
    insert_flow-rule (HasWorkspace id user) flows f before k (λ free. record {
      flow = h.flow;
      workspace = h.workspace;
      there = find_row-append (λ (f : Flow). f.id == id) flows (f ∷ []) h.there;
      same_user = h.same_user;
      named = h.named;
    })

pub open-HasWorkspace :
    (id owner : String) (flows : List Flow) (user subject : String) (ttl : ℕ) (host : Option String)
    (uuid : String) (now : ℕ)
    → HasWorkspace id owner flows
    → HasWorkspace id owner (get_or_create_active_flow_in_tx flows user subject ttl host uuid now).0
open-HasWorkspace id owner flows user subject ttl host uuid now h =
    open-rule (HasWorkspace id owner) flows user subject ttl host uuid now
      (λ f.
        update-HasWorkspace (λ (g : Flow). g.id == f.id) (note_host host now)
          (note-IsGentle host now) id owner flows h)
      (insert-HasWorkspace id owner flows flows _ h h)
      (λ f.
        insert-HasWorkspace id owner _ flows _
          (update-HasWorkspace (λ (g : Flow). g.id == f.id) (retire now) (retire-IsGentle now) id
            owner flows h)
          h)

find-delete :
    (p q : Flow → Bool) (flows : List Flow) (x : Flow)
    → find_row p flows ≡ some x
    → q x ≡ false
    → find_row p (delete_rows q flows) ≡ some x
unfolding find_row delete_rows
find-delete p q [] x h k = absurd (cc (h))
find-delete p q (f ∷ flows) x h k = elim (Bool-cases (p f)) [
  | inl e ↦
      let same : f ≡ x = ground (arith, e) in
      let stays : q f ≡ false = rw same k in rw (stays, e) (ap some same)
  | inr e ↦
      let rest = find-delete p q flows x (ground (arith, e)) k in
      elim (Bool-cases (q f)) [ inl d ↦ rw d rest | inr d ↦ rw (d, e) rest ]
]

unnamed :
    (now : ℕ) (f : Flow) (w : String) → truthy f.workspace_id ≡ some w → is_stale now f ≡ false
unnamed now f w h = elim (Option-cases f.workspace_id) [
  | inl e ↦ absurd (cc (rw e at h))
  | inr (v, e) ↦ rw e (ground arith)
]

pub clean-HasWorkspace :
    (id user : String) (flows : List Flow) (now : ℕ)
    → HasWorkspace id user flows
    → HasWorkspace id user (cleanup_expired flows now)
unfolding cleanup_expired get_flow
clean-HasWorkspace id user flows now h =
    let fresh : is_stale now h.flow ≡ false = unnamed now h.flow h.workspace h.named in
    record {
      flow = h.flow;
      workspace = h.workspace;
      there = find-delete (λ (f : Flow). f.id == id) (is_stale now) flows h.flow h.there fresh;
      same_user = h.same_user;
      named = h.named;
    }

pub delete-HasWorkspace :
    (id user other : String) (flows : List Flow)
    → IsOther id other
    → HasWorkspace id user flows
    → HasWorkspace id user (delete_flow flows other).0
unfolding delete_flow get_flow
delete-HasWorkspace id user other flows ne h =
    let own = (eq_iff h.flow.id id).0 (find_row-passes (λ (f : Flow). f.id == id) flows h.there) in
    let kept : (h.flow.id == other) ≡ false =
      ground (arith, own, ne, eq_iff h.flow.id other, eq_iff other id) in
    record {
      flow = h.flow;
      workspace = h.workspace;
      there =
          find-delete (λ (f : Flow). f.id == id) (λ (f : Flow). f.id == other) flows h.flow h.there
            kept;
      same_user = h.same_user;
      named = h.named;
    }
