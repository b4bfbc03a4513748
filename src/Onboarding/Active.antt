-- ===== src/Onboarding/Active.antt =====
-- The conditions on the table of flows of services/server/src/onboarding/store.ts: the identifiers,
-- and the flows of one user that are not completed; and each method of the store under them.
use chief_everything_officer.Base.{
  ℕ, String, Bool, true, false, Option, none, some, List, [], ◌∷◌, ◌++◌, ◌&&◌, ◌≡◌, refl, inl, inr,
  ◌==◌, eq_iff, eq_refl, Bool-cases, arith, if◌then◌else◌, All, All-append, All-imp, not,
}
use chief_everything_officer.Base.Sql.{find_row, update_rows}
use chief_everything_officer.Onboarding.Opened.{insert_flow-rule, open-rule, write_flow-some}
use chief_everything_officer.Onboarding.{
  FlowState, awaiting_repository_choice, awaiting_github_access, provisioning,
  awaiting_repository_restriction, ready_to_resume, recovery_required, completed, Flow, is_indexed,
  is_second_active, clashes,
}
use chief_everything_officer.Onboarding.Store.{
  retire, write_flow, note_host, is_noted, insert_flow, get_or_create_active_flow_in_tx,
  delete_rows,
}

-- A flow that is not completed, whatever the queries and the index list.
abbrev pub is_open : FlowState → Bool
is_open completed = false
is_open _ = true

-- The rows have two identifiers, and are not two open flows of one user.
pub record IsApart (f g : Flow) : Type 0 where
  pub ids : (f.id == g.id) ≡ false
  pub open_flows : (is_open f.state && (is_open g.state && f.user_id == g.user_id)) ≡ false

-- Any two rows are apart.
abbrev pub IsTable : List Flow → Type 0
IsTable [] = Unit
IsTable (f ∷ flows) = All (IsApart f) flows × IsTable flows

-- The index lists exactly the open flows.
indexed-is_open : (st : FlowState) → is_indexed st ≡ is_open st
indexed-is_open awaiting_repository_choice = refl
indexed-is_open awaiting_github_access = refl
indexed-is_open provisioning = refl
indexed-is_open awaiting_repository_restriction = refl
indexed-is_open ready_to_resume = refl
indexed-is_open recovery_required = refl
indexed-is_open completed = refl

clashes-IsApart : (f g : Flow) → clashes f g ≡ false → IsApart f g
unfolding clashes is_second_active
clashes-IsApart f g h =
    let k = rw (indexed-is_open f.state, indexed-is_open g.state) at h in
    record { ids = ground (arith, k); open_flows = ground (arith, k) }

IsApart-clashes : (f g : Flow) → IsApart f g → clashes f g ≡ false
unfolding clashes is_second_active
IsApart-clashes f g h =
    rw (indexed-is_open f.state, indexed-is_open g.state, h.ids, h.open_flows) refl

-- No two rows clash.
abbrev pub IsUnclashed : List Flow → Type 0
IsUnclashed [] = Unit
IsUnclashed (f ∷ flows) = All (λ g. clashes f g ≡ false) flows × IsUnclashed flows

clash_sym : (f g : Flow) → clashes f g ≡ false → clashes g f ≡ false
unfolding clashes is_second_active
clash_sym f g h =
    ground
      (arith, (eq_iff g.id f.id).0, eq_refl f.id, (eq_iff g.user_id f.user_id).0, eq_refl f.user_id)

-- A row found clashes with no other one.
find_none-All :
    (p : Flow → Bool) (flows : List Flow) → find_row p flows ≡ none → All (λ g. p g ≡ false) flows
unfolding find_row
find_none-All p [] h = tt
find_none-All p (f ∷ flows) h = elim (Bool-cases (p f)) [
  | inl e ↦ absurd (ground (arith, e))
  | inr e ↦ (e, find_none-All p flows (ground (arith, e)))
]

-- What a writable row meets in every row: it is the one replaced, or does not clash.
abbrev Meets : Flow → Flow → Type 0
Meets f g = (not (g.id == f.id) && is_second_active f g) ≡ false

apart : (f g : Flow) → Meets f g → (g.id == f.id) ≡ false → clashes g f ≡ false
unfolding clashes is_second_active
apart f g h ne =
    ground (arith, h, ne, (eq_iff f.user_id g.user_id).1, (eq_iff g.user_id f.user_id).0)

other_id : (f x g : Flow) → (x.id == f.id) ≡ true → clashes x g ≡ false → (g.id == f.id) ≡ false
unfolding clashes
other_id f x g e h = ground (arith, (eq_iff x.id f.id).0 e, (eq_iff g.id f.id).0, eq_refl f.id)

-- After a row with the same identifier, no further row is replaced.
rest_same :
    (f x : Flow) (flows : List Flow)
    → (x.id == f.id) ≡ true
    → All (λ g. clashes x g ≡ false) flows
    → All (Meets f) flows
    → (update_rows (λ (g : Flow). g.id == f.id) (λ g. f) flows ≡ flows)
      × All (λ g. clashes f g ≡ false) flows
unfolding update_rows
rest_same f x [] e h k = (refl, tt)
rest_same f x (g ∷ flows) e h k =
    let (same, free) = rest_same f x flows e h.1 k.1 in
    let ne = other_id f x g e h.0 in (rw (ne, same) refl, (clash_sym g f (apart f g k.0 ne), free))

update-All :
    (f x : Flow) (flows : List Flow)
    → clashes x f ≡ false
    → All (λ g. clashes x g ≡ false) flows
    → All (λ g. clashes x g ≡ false) (update_rows (λ (g : Flow). g.id == f.id) (λ g. f) flows)
unfolding update_rows
update-All f x [] e h = tt
update-All f x (g ∷ flows) e h = elim (Bool-cases (g.id == f.id)) [
  | inl k ↦ rw k (e, update-All f x flows e h.1)
  | inr k ↦ rw k (h.0, update-All f x flows e h.1)
]

update-IsUnclashed :
    (f : Flow) (flows : List Flow)
    → All (Meets f) flows
    → IsUnclashed flows
    → IsUnclashed (update_rows (λ (g : Flow). g.id == f.id) (λ g. f) flows)
unfolding update_rows
update-IsUnclashed f [] m h = tt
update-IsUnclashed f (x ∷ flows) m h = elim (Bool-cases (x.id == f.id)) [
  | inl k ↦ let (same, free) = rest_same f x flows k h.0 m.1 in rw (k, same) (free, h.1)
  | inr k ↦ rw k (update-All f x flows (apart f x m.0 k) h.0, update-IsUnclashed f flows m.1 h.1)
]

pub write-IsUnclashed :
    (f : Flow) (flows after : List Flow)
    → write_flow flows f ≡ some after
    → IsUnclashed flows
    → IsUnclashed after
write-IsUnclashed f flows after e h =
    let (free, eq) = write_flow-some flows f after e in
    rw⁻¹ eq (update-IsUnclashed f flows (find_none-All _ flows free) h)

-- A row that takes no more place than another.
record IsWeaker (f g : Flow) : Type 0 where
  same_id : g.id ≡ f.id
  same_user : g.user_id ≡ f.user_id
  no_more : is_indexed g.state ≡ true → is_indexed f.state ≡ true

IsWeaker-refl : (f : Flow) → IsWeaker f f
IsWeaker-refl f = record { same_id = refl; same_user = refl; no_more = λ h. h }

weaker-clash :
    (x y f g : Flow) → IsWeaker x f → IsWeaker y g → clashes x y ≡ false → clashes f g ≡ false
unfolding clashes is_second_active
weaker-clash x y f g h k e =
    rw (h.same_id, h.same_user, k.same_id, k.same_user) (ground (arith, h.no_more, k.no_more))

module _ (p : Flow → Bool) (u : Flow → Flow) (weak : (f : Flow) → IsWeaker f (u f)) where
  step_weak : (f : Flow) → IsWeaker f (if p f then u f else f)
  step_weak f = elim (Bool-cases (p f)) [ inl e ↦ rw e (weak f) | inr e ↦ rw e (IsWeaker-refl f) ]

  weaken-All :
      (f g : Flow) (flows : List Flow)
      → IsWeaker f g
      → All (λ x. clashes f x ≡ false) flows
      → All (λ x. clashes g x ≡ false) (update_rows p u flows)
  unfolding update_rows
  weaken-All f g [] k h = tt
  weaken-All f g (x ∷ flows) k h =
      (weaker-clash f x g _ k (step_weak x) h.0, weaken-All f g flows k h.1)

  weaken-IsUnclashed : (flows : List Flow) → IsUnclashed flows → IsUnclashed (update_rows p u flows)
  unfolding update_rows
  weaken-IsUnclashed [] h = tt
  weaken-IsUnclashed (f ∷ flows) h =
      (weaken-All f _ flows (step_weak f) h.0, weaken-IsUnclashed flows h.1)

append-IsUnclashed :
    (flows : List Flow) (f : Flow)
    → All (λ g. clashes f g ≡ false) flows
    → IsUnclashed flows
    → IsUnclashed (flows ++ f ∷ [])
append-IsUnclashed [] f h k = (tt, tt)
append-IsUnclashed (g ∷ flows) f h k = (
  All-append (λ x. clashes g x ≡ false) flows (f ∷ []) k.0 (clash_sym f g h.0, tt),
  append-IsUnclashed flows f h.1 k.1,
)

insert-IsUnclashed :
    (flows before : List Flow) (f : Flow)
    → IsUnclashed flows
    → IsUnclashed before
    → IsUnclashed (insert_flow flows f before).0
insert-IsUnclashed flows before f h k =
    insert_flow-rule IsUnclashed flows f before k
      (λ free. append-IsUnclashed flows f (find_none-All (clashes f) flows free) h)

note-IsWeaker : (host : Option String) (now : ℕ) (f : Flow) → IsWeaker f (note_host host now f)
note-IsWeaker host now f = elim (Bool-cases (is_noted host f.host_oauth_request_id)) [
  | inl e ↦ rw e (IsWeaker-refl f)
  | inr e ↦ rw e (record { same_id = refl; same_user = refl; no_more = λ h. h })
]

retire-IsWeaker : (now : ℕ) (f : Flow) → IsWeaker f (retire now f)
retire-IsWeaker now f = record { same_id = refl; same_user = refl; no_more = λ h. absurd (cc (h)) }

pub open-IsUnclashed :
    (flows : List Flow) (user subject : String) (ttl : ℕ) (host : Option String) (uuid : String)
    (now : ℕ)
    → IsUnclashed flows
    → IsUnclashed (get_or_create_active_flow_in_tx flows user subject ttl host uuid now).0
open-IsUnclashed flows user subject ttl host uuid now h =
    open-rule IsUnclashed flows user subject ttl host uuid now
      (λ f.
        weaken-IsUnclashed (λ (g : Flow). g.id == f.id) (note_host host now)
          (note-IsWeaker host now) flows h)
      (insert-IsUnclashed flows flows _ h h)
      (λ f.
        insert-IsUnclashed _ flows _
          (weaken-IsUnclashed (λ (g : Flow). g.id == f.id) (retire now) (retire-IsWeaker now) flows
            h)
          h)

pub delete-All :
    (P : Flow → Type 0) (p : Flow → Bool) (flows : List Flow)
    → All P flows
    → All P (delete_rows p flows)
unfolding delete_rows
delete-All P p [] h = tt
delete-All P p (f ∷ flows) h = elim (Bool-cases (p f)) [
  | inl e ↦ rw e (delete-All P p flows h.1)
  | inr e ↦ rw e (h.0, delete-All P p flows h.1)
]

pub delete-IsUnclashed :
    (p : Flow → Bool) (flows : List Flow) → IsUnclashed flows → IsUnclashed (delete_rows p flows)
unfolding delete_rows
delete-IsUnclashed p [] h = tt
delete-IsUnclashed p (f ∷ flows) h = elim (Bool-cases (p f)) [
  | inl e ↦ rw e (delete-IsUnclashed p flows h.1)
  | inr e ↦ rw e (delete-All (λ g. clashes f g ≡ false) p flows h.0, delete-IsUnclashed p flows h.1)
]

pub IsTable-IsUnclashed : (flows : List Flow) → IsTable flows → IsUnclashed flows
IsTable-IsUnclashed [] h = tt
IsTable-IsUnclashed (f ∷ flows) h = (
  All-imp (IsApart f) (λ g. clashes f g ≡ false) (IsApart-clashes f) flows h.0,
  IsTable-IsUnclashed flows h.1,
)

pub IsUnclashed-IsTable : (flows : List Flow) → IsUnclashed flows → IsTable flows
IsUnclashed-IsTable [] h = tt
IsUnclashed-IsTable (f ∷ flows) h = (
  All-imp (λ g. clashes f g ≡ false) (IsApart f) (clashes-IsApart f) flows h.0,
  IsUnclashed-IsTable flows h.1,
)
