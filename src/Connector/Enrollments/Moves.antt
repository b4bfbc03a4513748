-- ===== src/Connector/Enrollments/Moves.antt =====
-- How the methods of services/server/src/connector/enrollment-store.ts that change one enrolment
-- change it.
use chief_everything_officer.Base.{
  ℕ, String, true, Option, some, ◌≡◌, ◌⊎◌, refl, inl, inr, Bool-cases, Option-cases, ltb, arith,
}
use chief_everything_officer.Base.Map.{get}
use chief_everything_officer.Connector.Enrollments.{
  State, pending, approved, denied, consumed, Enrollment, Store,
}
use chief_everything_officer.Connector.Enrollments.Methods.{
  write, is_pending, set_consent_nonce, approve, deny, mark_consumed, check_and_record_poll,
}

-- The steps of an enrolment: its state and the user who approved it.
pub data Step : State → Option String → State → Option String → Type 0 where
  stays : {a : State} {u : Option String} → Step a u a u
  approving : {u : Option String} {v : String} → Step pending u approved (some v)
  denying : {u : Option String} → Step pending u denied u
  consuming : {u : Option String} → Step approved u consumed u

-- What every change keeps.
abbrev pub identity : Enrollment → String × (String × (String × (String × (String × (String × ℕ)))))
identity e = (
  e.enrollment_id,
  (
    e.user_code,
    (
      e.device_code_digest,
      (
        e.reserved_device_id,
        (e.reserved_credential_id, (e.credential_secret_digest, e.expires_at_ms)),
      ),
    ),
  ),
)

abbrev pub IsSame : Enrollment → Enrollment → Type 0
IsSame e d = identity d ≡ identity e

pub data Change (s t : Store) : Type 0 where
  unchanged : t ≡ s → Change s t
  writes :
      (id : String) (e d : Enrollment)
      → get s.enrollments id ≡ some e
      → IsSame e d
      → Step e.state e.approved_user_id d.state d.approved_user_id
      → t ≡ write s id d
      → Change s t

pub set_consent_nonce-Change :
    (s : Store) (id nonce : String) → Change s (set_consent_nonce s id nonce).0
unfolding set_consent_nonce
set_consent_nonce-Change s id nonce = elim (Option-cases (get s.enrollments id)) [
  | inl e ↦ unchanged (rw (set_consent_nonce, e) refl)
  | inr (d, e) ↦
      writes id d (record d { consent_nonce_digest = some nonce }) e refl stays
        (rw (set_consent_nonce, e) refl)
]

pub check_and_record_poll-Change :
    (s : Store) (id : String) (now : ℕ) → Change s (check_and_record_poll s id now).0
unfolding check_and_record_poll
check_and_record_poll-Change s id now = elim (Option-cases (get s.enrollments id)) [
  | inl e ↦ unchanged (rw (check_and_record_poll, e) refl)
  | inr (d, e) ↦
      writes id d (record d { last_poll_at_ms = some now }) e refl stays
        (rw (check_and_record_poll, e) refl)
]

is_pending-eq : (a : State) → is_pending a ≡ true → a ≡ pending
is_pending-eq pending h = refl
is_pending-eq approved h = absurd (ground arith)
is_pending-eq denied h = absurd (ground arith)
is_pending-eq consumed h = absurd (ground arith)

pub approve-Change : (s : Store) (id user : String) (now : ℕ) → Change s (approve s id user now).0
unfolding approve
approve-Change s id user now = elim (Option-cases (get s.enrollments id)) [
  | inl e ↦ unchanged (rw (approve, e) refl)
  | inr (d, e) ↦ elim (Bool-cases (is_pending d.state)) [
    | inr p ↦ unchanged (rw (approve, e, p) refl)
    | inl p ↦ elim (Bool-cases (ltb d.expires_at_ms now)) [
      | inl x ↦ unchanged (rw (approve, e, p, x) refl)
      | inr x ↦
          writes id d
            (record d { state = approved; approved_user_id = some user; approved_at_ms = some now })
            e refl (rw (is_pending-eq d.state p) approving) (rw (approve, e, p, x) refl)
    ]
  ]
]

pub deny-Change : (s : Store) (id : String) → Change s (deny s id).0
unfolding deny
deny-Change s id = elim (Option-cases (get s.enrollments id)) [
  | inl e ↦ unchanged (rw (deny, e) refl)
  | inr (d, e) ↦ elim (Bool-cases (is_pending d.state)) [
    | inr p ↦ unchanged (rw (deny, e, p) refl)
    | inl p ↦
        writes id d (record d { state = denied }) e refl (rw (is_pending-eq d.state p) denying)
          (rw (deny, e, p) refl)
  ]
]

-- The two states that consuming does not refuse, and the others.
data Consumable (a : State) : Type 0 where
  not_yet : a ≡ approved → Consumable a
  already : a ≡ consumed → Consumable a
  refused : (a ≡ pending) ⊎ (a ≡ denied) → Consumable a

Consumable-cases : (a : State) → Consumable a
Consumable-cases pending = refused (inl refl)
Consumable-cases approved = not_yet refl
Consumable-cases denied = refused (inr refl)
Consumable-cases consumed = already refl

pub mark_consumed-Change : (s : Store) (id : String) (now : ℕ) → Change s (mark_consumed s id now).0
unfolding mark_consumed
mark_consumed-Change s id now = elim (Option-cases (get s.enrollments id)) [
  | inl e ↦ unchanged (rw (mark_consumed, e) refl)
  | inr (d, e) ↦ elim (Consumable-cases d.state) [
    | not_yet p ↦
        writes id d (record d { state = consumed; consumed_at_ms = some now }) e refl
          (rw p consuming) (rw (mark_consumed, e, p) refl)
    | already p ↦ unchanged (rw (mark_consumed, e, p) refl)
    | refused (inl p) ↦ unchanged (rw (mark_consumed, e, p) refl)
    | refused (inr p) ↦ unchanged (rw (mark_consumed, e, p) refl)
  ]
]
