-- ===== src/Connector/Enrollments/Final.antt =====
-- The state of one enrolment of services/server/src/connector/enrollment-store.ts over any calls.
use Prim.Native.String
use chief_everything_officer.Base.{
  ℕ, String, false, Option, none, some, List, [], ◌∷◌, ◌≡◌, refl, ◌∙◌, ◌⊎◌, inl, inr, ◌==◌, eq_iff,
  Bool-cases, arith, ltb,
}
use chief_everything_officer.Base.Map.{get}
use chief_everything_officer.Base.Map.Laws.{get-set_same, get-set_other}
use chief_everything_officer.Connector.Enrollments.{
  State, pending, approved, denied, consumed, Enrollment, Store, EnrollmentInput, Randomness,
  new_enrollment, purge_expired, create_in, create_enrollment,
}
use chief_everything_officer.Connector.Enrollments.Methods.{unexpired}
use chief_everything_officer.Connector.Enrollments.Calls.{
  Call, purges, creates, sets_nonce, approves, denies, consumes, polls, clears, step, run,
}
use chief_everything_officer.Connector.Enrollments.Codes.{create_in-rule}
use chief_everything_officer.Connector.Enrollments.Moves.{
  Step, stays, approving, denying, consuming, IsSame, Change, unchanged, writes,
  set_consent_nonce-Change, approve-Change, deny-Change, mark_consumed-Change,
  check_and_record_poll-Change,
}
use chief_everything_officer.Connector.Enrollments.Consistent.{IsConsistent}
use chief_everything_officer.Connector.Enrollments.Purged.{purge_expired-get}
use chief_everything_officer.Connector.Enrollments.Histories.{AllFresh, step-IsConsistent}

-- The states and approving users that may follow: an approval stays with its user until it is
-- consumed, and a denied or consumed enrolment stays as it is.
abbrev pub IsAfter : State → Option String → State → Option String → Type 0
IsAfter pending u b v = Unit
IsAfter approved u b v = ((b ≡ approved) ⊎ (b ≡ consumed)) × (v ≡ u)
IsAfter denied u b v = (b ≡ denied) × (v ≡ u)
IsAfter consumed u b v = (b ≡ consumed) × (v ≡ u)

IsAfter-refl : (a : State) (u : Option String) → IsAfter a u a u
IsAfter-refl pending u = tt
IsAfter-refl approved u = (inl refl, refl)
IsAfter-refl denied u = (refl, refl)
IsAfter-refl consumed u = (refl, refl)

Step-IsAfter : {a b : State} {u v : Option String} → Step a u b v → IsAfter a u b v
Step-IsAfter {a = a} {u = u} stays = IsAfter-refl a u
Step-IsAfter approving = tt
Step-IsAfter denying = tt
Step-IsAfter consuming = (inr refl, refl)

IsAfter-trans :
    (a : State) (u : Option String) (b : State) (v : Option String) (c : State) (w : Option String)
    → IsAfter a u b v
    → IsAfter b v c w
    → IsAfter a u c w
IsAfter-trans pending u b v c w h k = tt
IsAfter-trans approved u b v c w (inl e, f) k = rw (e, f) at k
IsAfter-trans approved u b v c w (inr e, f) k =
    let done : IsAfter consumed u c w = rw (e, f) at k in (inr done.0, done.1)
IsAfter-trans denied u b v c w h k = rw (h.0, h.1) at k
IsAfter-trans consumed u b v c w h k = rw (h.0, h.1) at k

-- What may stand under an identifier later, when no enrolment is created under it again.
abbrev pub Follows : Option Enrollment → Option Enrollment → Type 0
Follows none o = o ≡ none
Follows (some e) none = Unit
Follows (some e) (some d) =
    IsSame e d × IsAfter e.state e.approved_user_id d.state d.approved_user_id

Follows-refl : (o : Option Enrollment) → Follows o o
Follows-refl none = refl
Follows-refl (some e) = (refl, IsAfter-refl e.state e.approved_user_id)

Follows-trans : (a b c : Option Enrollment) → Follows a b → Follows b c → Follows a c
Follows-trans none b c h k = rw h at k
Follows-trans (some e) b none h k = tt
Follows-trans (some e) none (some x) h k = absurd (cc (k))
Follows-trans (some e) (some d) (some x) h k = (
  k.0 ∙ h.0,
  IsAfter-trans e.state e.approved_user_id d.state d.approved_user_id x.state x.approved_user_id h.1
      k.1,
)

Change-Follows :
    (s t : Store) (id : String) → Change s t → Follows (get s.enrollments id) (get t.enrollments id)
Change-Follows s t id (unchanged e) = rw e (Follows-refl (get s.enrollments id))
Change-Follows s t id (writes other e d there same move eq) = elim (Bool-cases (other == id)) [
  | inl k ↦
      let key : other ≡ id = (eq_iff other id).0 k in
      let wrote : get t.enrollments id ≡ some d =
        rw eq (rw⁻¹ key (get-set_same s.enrollments other d)) in
      let before : get s.enrollments id ≡ some e = rw⁻¹ key there in
      rw (wrote, before) (same, Step-IsAfter move)
  | inr k ↦
      let kept : get t.enrollments id ≡ get s.enrollments id =
        rw eq (get-set_other s.enrollments other id d k) in
      rw kept (Follows-refl (get s.enrollments id))
]

unexpired-Follows : (now : ℕ) (o : Option Enrollment) → Follows o (unexpired now o)
unexpired-Follows now none = refl
unexpired-Follows now (some e) = elim (Bool-cases (ltb e.expires_at_ms now)) [
  | inl late ↦ rw late tt
  | inr kept ↦ rw kept (Follows-refl (some e))
]

purge-Follows :
    (s : Store) (now : ℕ) (id : String)
    → IsConsistent s
    → Follows (get s.enrollments id) (get (purge_expired s now).0.enrollments id)
purge-Follows s now id h =
    rw (purge_expired-get s now id h) (unexpired-Follows now (get s.enrollments id))

-- The call creates no enrolment under the identifier.
abbrev pub Spares : String → Call → Type 0
Spares id (creates input random) = (String.◌++◌ "enr_" random.enrollment_uuid == id) ≡ false
Spares id _ = Unit

abbrev pub AllSpare : String → List Call → Type 0
AllSpare id [] = Unit
AllSpare id (c ∷ cs) = Spares id c × AllSpare id cs

create_in-get :
    (sha256 : String → String) (s : Store) (input : EnrollmentInput) (random : Randomness)
    (id : String)
    → (String.◌++◌ "enr_" random.enrollment_uuid == id) ≡ false
    → get (create_in sha256 s input random).0.enrollments id ≡ get s.enrollments id
create_in-get sha256 s input random id ne =
    create_in-rule (λ t. get t.enrollments id ≡ get s.enrollments id) sha256 s input random refl
      (λ code room unused.
        get-set_other s.enrollments _ id (new_enrollment sha256 s input random code) ne)

create-Follows :
    (sha256 : String → String) (s : Store) (input : EnrollmentInput) (random : Randomness)
    (id : String)
    → IsConsistent s
    → (String.◌++◌ "enr_" random.enrollment_uuid == id) ≡ false
    → Follows
        (get s.enrollments id)
        (get (create_enrollment sha256 s input random).0.enrollments id)
unfolding create_enrollment
create-Follows sha256 s input random id h ne =
    let kept = create_in-get sha256 (purge_expired s input.now_ms).0 input random id ne in
    let made : Follows (get s.enrollments id)
        (get (create_in sha256 (purge_expired s input.now_ms).0 input random).0.enrollments id) =
      rw kept (purge-Follows s input.now_ms id h) in
    ground (arith, made, Follows-refl (get s.enrollments id))

gone-Follows : (o : Option Enrollment) → Follows o none
gone-Follows none = refl
gone-Follows (some e) = tt

step-Follows :
    (sha256 : String → String) (s : Store) (c : Call) (id : String)
    → IsConsistent s
    → Spares id c
    → Follows (get s.enrollments id) (get (step sha256 s c).enrollments id)
unfolding step
step-Follows sha256 s (purges now) id h f = purge-Follows s now id h
step-Follows sha256 s (creates input random) id h f = create-Follows sha256 s input random id h f
step-Follows sha256 s (sets_nonce other nonce) id h f =
    Change-Follows s _ id (set_consent_nonce-Change s other nonce)
step-Follows sha256 s (approves other user now) id h f =
    Change-Follows s _ id (approve-Change s other user now)
step-Follows sha256 s (denies other) id h f = Change-Follows s _ id (deny-Change s other)
step-Follows sha256 s (consumes other now) id h f =
    Change-Follows s _ id (mark_consumed-Change s other now)
step-Follows sha256 s (polls other now) id h f =
    Change-Follows s _ id (check_and_record_poll-Change s other now)
step-Follows sha256 s clears id h f = unfold get in gone-Follows (get s.enrollments id)

-- Over any calls on a consistent store that draw nothing in use and create no enrolment under the
-- identifier again: an enrolment that is still there has the codes, the reserved identifiers, the
-- credential and the expiry that it had; an approval keeps its user and at most becomes consumed,
-- and a denied or consumed enrolment stays so. What was not there is not there.
pub run-Follows :
    (sha256 : String → String) (s : Store) (cs : List Call) (id : String)
    → IsConsistent s
    → AllFresh sha256 s cs
    → AllSpare id cs
    → Follows (get s.enrollments id) (get (run sha256 s cs).enrollments id)
unfolding run
run-Follows sha256 s [] id h f k = Follows-refl (get s.enrollments id)
run-Follows sha256 s (c ∷ cs) id h f k =
    Follows-trans (get s.enrollments id) (get (step sha256 s c).enrollments id) _
      (step-Follows sha256 s c id h k.0)
      (run-Follows sha256 (step sha256 s c) cs id (step-IsConsistent sha256 s c h f.0) f.1 k.1)
