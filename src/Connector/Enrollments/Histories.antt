-- ===== src/Connector/Enrollments/Histories.antt =====
-- The maps of the store of services/server/src/connector/enrollment-store.ts after any calls.
use Prim.Native.String
use chief_everything_officer.Base.{
  ℕ, String, Option, none, some, List, [], ◌∷◌, ◌≡◌, refl, sym, ◌∙◌, inl, inr, Bool-cases,
  Option-cases, arith, ltb,
}
use chief_everything_officer.Base.Map.{get}
use chief_everything_officer.Connector.Enrollments.{
  Enrollment, Store, EnrollmentInput, Randomness, new_store, new_enrollment, purge_expired,
  create_in, create_enrollment,
}
use chief_everything_officer.Connector.Enrollments.Methods.{unexpired, indexed}
use chief_everything_officer.Connector.Enrollments.Calls.{
  Call, purges, creates, sets_nonce, approves, denies, consumes, polls, clears, step, run,
}
use chief_everything_officer.Connector.Enrollments.Codes.{create_in-rule}
use chief_everything_officer.Connector.Enrollments.Moves.{
  set_consent_nonce-Change, approve-Change, deny-Change, mark_consumed-Change,
  check_and_record_poll-Change,
}
use chief_everything_officer.Connector.Enrollments.Consistent.{IsConsistent}
use chief_everything_officer.Connector.Enrollments.Consistent.Kept.{
  Change-IsConsistent, insert-IsConsistent,
}
use chief_everything_officer.Connector.Enrollments.Purged.{
  purge_expired-get, purge_expired-IsConsistent,
}

-- The identifier and the device code that a call draws are not in use.
abbrev pub IsFresh : (String → String) → Store → Call → Type 0
IsFresh sha256 s (creates input random) =
    (get s.enrollments (String.◌++◌ "enr_" random.enrollment_uuid) ≡ none)
    × (get s.device_code_digest_index (sha256 random.device_code) ≡ none)
IsFresh sha256 s _ = Unit

abbrev pub AllFresh : (String → String) → Store → List Call → Type 0
AllFresh sha256 s [] = Unit
AllFresh sha256 s (c ∷ cs) = IsFresh sha256 s c × AllFresh sha256 (step sha256 s c) cs

unexpired_some :
    (now : ℕ) (o : Option Enrollment) (e : Enrollment) → unexpired now o ≡ some e → o ≡ some e
unexpired_some now none e h = h
unexpired_some now (some x) e h = elim (Bool-cases (ltb x.expires_at_ms now)) [
  | inl late ↦ absurd (ground (arith, late))
  | inr kept ↦ ground (arith, kept)
]

purge-id_none :
    (s : Store) (now : ℕ) (id : String)
    → IsConsistent s
    → get s.enrollments id ≡ none
    → get (purge_expired s now).0.enrollments id ≡ none
purge-id_none s now id h gone = purge_expired-get s now id h ∙ rw gone refl

purge-digest_none :
    (s : Store) (now : ℕ) (digest : String)
    → IsConsistent s
    → get s.device_code_digest_index digest ≡ none
    → get (purge_expired s now).0.device_code_digest_index digest ≡ none
purge-digest_none s now digest h gone =
    elim (Option-cases (get (purge_expired s now).0.device_code_digest_index digest)) [
      | inl e ↦ e
      | inr (id, e) ↦
          let (x, there, same) = (purge_expired-IsConsistent s now h).by_digest digest id e in
          let before =
            unexpired_some now (get s.enrollments id) x
              (sym (purge_expired-get s now id h) ∙ there) in
          let (own, code, indexed) = h.by_id id x before in
          let indexed' : get s.device_code_digest_index digest ≡ some id = rw⁻¹ same indexed in
          absurd (cc (indexed', gone))
    ]

create_in-IsConsistent :
    (sha256 : String → String) (s : Store) (input : EnrollmentInput) (random : Randomness)
    → IsConsistent s
    → get s.enrollments (String.◌++◌ "enr_" random.enrollment_uuid) ≡ none
    → get s.device_code_digest_index (sha256 random.device_code) ≡ none
    → IsConsistent (create_in sha256 s input random).0
create_in-IsConsistent sha256 s input random h new_id new_digest =
    create_in-rule IsConsistent sha256 s input random h (λ code room new_code.
      insert-IsConsistent s (new_enrollment sha256 s input random code) h new_id new_code
        new_digest)

create_enrollment-IsConsistent :
    (sha256 : String → String) (s : Store) (input : EnrollmentInput) (random : Randomness)
    → IsConsistent s
    → IsFresh sha256 s (creates input random)
    → IsConsistent (create_enrollment sha256 s input random).0
unfolding create_enrollment
create_enrollment-IsConsistent sha256 s input random h fresh =
    let now = input.now_ms in
    let made =
      create_in-IsConsistent sha256 (purge_expired s now).0 input random
        (purge_expired-IsConsistent s now h) (purge-id_none s now _ h fresh.0)
        (purge-digest_none s now _ h fresh.1) in
    ground (arith, h, made)

new_store-IsConsistent : (max ttl : ℕ) → IsConsistent (new_store max ttl)
new_store-IsConsistent max ttl = record {
  keyed = tt;
  by_id = λ id e found. absurd (unfold get in cc (found));
  by_code = λ code id found. absurd (unfold get in cc (found));
  by_digest = λ digest id found. absurd (unfold get in cc (found));
}

pub step-IsConsistent :
    (sha256 : String → String) (s : Store) (c : Call)
    → IsConsistent s
    → IsFresh sha256 s c
    → IsConsistent (step sha256 s c)
unfolding step
step-IsConsistent sha256 s (purges now) h f = purge_expired-IsConsistent s now h
step-IsConsistent sha256 s (creates input random) h f =
    create_enrollment-IsConsistent sha256 s input random h f
step-IsConsistent sha256 s (sets_nonce id nonce) h f =
    Change-IsConsistent s _ h (set_consent_nonce-Change s id nonce)
step-IsConsistent sha256 s (approves id user now) h f =
    Change-IsConsistent s _ h (approve-Change s id user now)
step-IsConsistent sha256 s (denies id) h f = Change-IsConsistent s _ h (deny-Change s id)
step-IsConsistent sha256 s (consumes id now) h f =
    Change-IsConsistent s _ h (mark_consumed-Change s id now)
step-IsConsistent sha256 s (polls id now) h f =
    Change-IsConsistent s _ h (check_and_record_poll-Change s id now)
step-IsConsistent sha256 s clears h f = new_store-IsConsistent s.max_active s.default_ttl_ms

pub run-IsConsistent :
    (sha256 : String → String) (s : Store) (cs : List Call)
    → IsConsistent s
    → AllFresh sha256 s cs
    → IsConsistent (run sha256 s cs)
unfolding run
run-IsConsistent sha256 s [] h f = h
run-IsConsistent sha256 s (c ∷ cs) h f =
    run-IsConsistent sha256 (step sha256 s c) cs (step-IsConsistent sha256 s c h f.0) f.1

-- After any calls that draw identifiers and device codes not in use, both indexes name exactly
-- the enrolments of the store: each enrolment stands under its own identifier and is the one that
-- its user code and the digest of its device code name, and an index names no other.
pub history-IsConsistent :
    (sha256 : String → String) (max ttl : ℕ) (cs : List Call)
    → AllFresh sha256 (new_store max ttl) cs
    → IsConsistent (run sha256 (new_store max ttl) cs)
history-IsConsistent sha256 max ttl cs f =
    run-IsConsistent sha256 (new_store max ttl) cs (new_store-IsConsistent max ttl) f
