-- ===== src/Onboarding/Opened.antt =====
-- The cases of `getOrCreateActiveFlowInTx` and of the UPDATE of services/server/src/onboarding/store.ts,
-- as a property of the rows that each leaves.
use chief_everything_officer.Base.{
  ℕ, String, Option, none, some, List, ◌≡◌, inl, inr, ◌==◌, ◌&&◌, not, ltb, is_none, Bool-cases,
  Option-cases, some_inj,
}
use chief_everything_officer.Base.Sql.{find_row, update_rows, insert_row}
use chief_everything_officer.Base.Sql.Laws.{insert_row-some}
use chief_everything_officer.Onboarding.{Flow, clashes, is_second_active}
use chief_everything_officer.Onboarding.Store.{
  new_flow, note_host, retire, resume_flow, insert_flow, get_or_create_active_flow_in_tx,
  find_active_row, write_flow,
}
use mathlib.Core.List.{◌++◌, ◌∷◌, []}

-- An insertion leaves the rows of before, or adds the flow at the end where it clashes with no row.
pub insert_flow-rule :
    (P : List Flow → Type 0) (flows : List Flow) (f : Flow) (before : List Flow)
    → P before
    → (find_row (clashes f) flows ≡ none → P (flows ++ f ∷ []))
    → P (insert_flow flows f before).0
unfolding insert_flow
insert_flow-rule P flows f before h k = elim (Option-cases (insert_row clashes f flows)) [
  | inl e ↦ rw (insert_flow, e) h
  | inr (after, e) ↦
      let (same, free) = insert_row-some clashes f flows e in rw (insert_flow, e, same) (k free)
]

-- The active flow is noted and handed out, or a new flow is inserted, after the active one was
-- retired where there is one.
pub open-rule :
    (P : List Flow → Type 0) (flows : List Flow) (user subject : String) (ttl : ℕ)
    (host : Option String) (uuid : String) (now : ℕ)
    → ((f : Flow) → P (update_rows (λ (g : Flow). g.id == f.id) (note_host host now) flows))
    → P (insert_flow flows (new_flow uuid user subject ttl host now) flows).0
    → ((f : Flow)
        → P
            (insert_flow
              (update_rows (λ (g : Flow). g.id == f.id) (retire now) flows)
              (new_flow uuid user subject ttl host now)
              flows).0)
    → P (get_or_create_active_flow_in_tx flows user subject ttl host uuid now).0
unfolding get_or_create_active_flow_in_tx resume_flow
open-rule P flows user subject ttl host uuid now resumed plain retired =
    elim (Option-cases (find_active_row flows user)) [
      | inl e ↦ rw (get_or_create_active_flow_in_tx, e) plain
      | inr (f, e) ↦ elim (Bool-cases (ltb f.expires_at_ms now)) [
        | inr x ↦ rw (get_or_create_active_flow_in_tx, e, x) (resumed f)
        | inl x ↦ elim (Bool-cases (is_none f.repository_id && is_none f.workspace_id)) [
          | inr y ↦ rw (get_or_create_active_flow_in_tx, e, x, y) (resumed f)
          | inl y ↦ rw (get_or_create_active_flow_in_tx, e, x, y) (retired f)
        ]
      ]
    ]

-- A write that is not refused replaces the row, and no other row has the place of the active flow.
pub write_flow-some :
    (flows : List Flow) (f : Flow) (after : List Flow)
    → write_flow flows f ≡ some after
    → (find_row (λ (g : Flow). not (g.id == f.id) && is_second_active f g) flows ≡ none)
      × (update_rows (λ (g : Flow). g.id == f.id) (λ g. f) flows ≡ after)
unfolding write_flow
write_flow-some flows f after h =
    elim (Option-cases
      (find_row (λ (g : Flow). not (g.id == f.id) && is_second_active f g) flows)) [
        | inr (g, k) ↦ absurd (cc (rw (write_flow, k) at h))
        | inl k ↦ (k, some_inj (rw (write_flow, k) at h))
      ]
