-- ===== src/Connector/Enrollments/Found.antt =====
-- The lookups of services/server/src/connector/enrollment-store.ts after `createEnrollment`.
use text.Mathlib.TextLemmas.{cons-append}
use chief_everything_officer.Base.{
  ℕ, ◌≤◌, String, false, some, ◌≡◌, refl, sym, ap, inl, inr, Bool-cases, Option-cases, arith, leb,
  ltb, length, nat_eq, not, ◌||◌,
}
use chief_everything_officer.Base.Map.{Map, set}
use chief_everything_officer.Base.Map.Laws.{get-set_same}
use chief_everything_officer.OAuth.Scope as Scope
use chief_everything_officer.OAuth.Scope.{is_empty, trim}
use chief_everything_officer.Connector.UserCode.{normalize_device_user_code}
use chief_everything_officer.Connector.Enrollments.{
  Enrollment, Store, EnrollmentInput, Randomness, created, new_enrollment, insert, purge_expired,
  draw_user_code, create_in, utf16_length, normal_platform, valid_platforms, is_sha256_hex,
  create_enrollment,
}
use chief_everything_officer.Connector.Enrollments.Methods.{
  unexpired, indexed, find_by_device_code_digest, find_by_user_code, found,
}

-- What a successful `createEnrollment` did.
record IsMade (sha256 : String → String) (s t : Store) (input : EnrollmentInput)
    (random : Randomness) (e : Enrollment) (device_code user_code : String) : Type 0 where
  store : t ≡ insert s e
  enrollment : e ≡ new_enrollment sha256 s input random user_code
  device : device_code ≡ random.device_code

created_inj :
    {e d : Enrollment} {a b x y : String}
    → created e a x ≡ created d b y
    → (e ≡ d) × (a ≡ b) × (x ≡ y)
created_inj h = (cc, cc, cc)

create_in-IsMade :
    (sha256 : String → String) (s t : Store) (input : EnrollmentInput) (random : Randomness)
    (e : Enrollment) (device_code user_code : String)
    → create_in sha256 s input random ≡ (t, created e device_code user_code)
    → IsMade sha256 s t input random e device_code user_code
unfolding create_in
create_in-IsMade sha256 s t input random e device_code user_code made =
    elim (Bool-cases (leb s.max_active (length s.enrollments))) [
      | inl full ↦ absurd (cc (ap (λ r. r.1) (rw full at made)))
      | inr room ↦ elim (Option-cases (draw_user_code s.user_code_index random.user_code_bytes)) [
        | inl x ↦ absurd (cc (ap (λ r. r.1) (rw (room, x) at made)))
        | inr (code, x) ↦
            let made' = rw (room, x) at made in
            let (same, device, drawn) = created_inj (ap (λ r. r.1) made') in
            record {
              store = rw⁻¹ same (sym (ap (λ r. r.0) made'));
              enrollment = rw⁻¹ drawn (sym same);
              device = sym device;
            }
      ]
    ]

create_enrollment-IsMade :
    (sha256 : String → String) (s t : Store) (input : EnrollmentInput) (random : Randomness)
    (e : Enrollment) (device_code user_code : String)
    → create_enrollment sha256 s input random ≡ (t, created e device_code user_code)
    → create_in sha256 (purge_expired s input.now_ms).0 input random
      ≡ (t, created e device_code user_code)
unfolding create_enrollment
create_enrollment-IsMade sha256 s t input random e device_code user_code made =
    elim (Bool-cases (
      nat_eq (utf16_length (trim input.display_name)) 0
      || ltb 128 (utf16_length (trim input.display_name)))) [
        | inl bad ↦ absurd (cc (ap (λ r. r.1) (rw bad at made)))
        | inr n ↦
            elim (Bool-cases (not (Scope.has valid_platforms (normal_platform input.platform)))) [
              | inl bad ↦ absurd (cc (ap (λ r. r.1) (rw (n, bad) at made)))
              | inr p ↦ elim (Bool-cases (not (is_sha256_hex input.credential_secret_digest))) [
                | inl bad ↦ absurd (cc (ap (λ r. r.1) (rw (n, p, bad) at made)))
                | inr d ↦ rw (n, p, d) at made
              ]
            ]
      ]

unexpired_kept :
    (now : ℕ) (e : Enrollment) → now ≤ e.expires_at_ms → unexpired now (some e) ≡ some e
unexpired_kept now e le = ground arith

-- The index and the map of an insertion give the enrolment.
indexed-set :
    (index : Map String) (m : Map Enrollment) (key id : String) (e : Enrollment)
    → is_empty id ≡ false
    → indexed (set index key id) (set m id e) key ≡ some e
unfolding indexed
indexed-set index m key id e h = rw (indexed, get-set_same index key id, h) (get-set_same m id e)

-- An enrolment that was made is found, until its time is past, by the digest of the device code
-- that was returned and by every text that reads as the user code that was returned.
pub create_enrollment-found :
    (sha256 : String → String) (s t : Store) (input : EnrollmentInput) (random : Randomness)
    (e : Enrollment) (device_code user_code typed : String) (now : ℕ)
    → create_enrollment sha256 s input random ≡ (t, created e device_code user_code)
    → now ≤ e.expires_at_ms
    → normalize_device_user_code typed ≡ some user_code
    → (find_by_device_code_digest t (sha256 device_code) now ≡ some e)
      × (find_by_user_code t typed now ≡ found (some e))
unfolding find_by_device_code_digest find_by_user_code
create_enrollment-found sha256 s t input random e device_code user_code typed now made le reads =
    let purged = (purge_expired s input.now_ms).0 in
    let r =
      create_in-IsMade sha256 purged t input random e device_code user_code
        (create_enrollment-IsMade sha256 s t input random e device_code user_code made) in
    let named : is_empty e.enrollment_id ≡ false = rw r.enrollment (rw cons-append refl) in
    let digest : e.device_code_digest ≡ sha256 device_code = rw (r.enrollment, r.device) refl in
    let code : e.user_code ≡ user_code = rw r.enrollment refl in
    let by_digest : indexed t.device_code_digest_index t.enrollments (sha256 device_code) ≡ some e =
      rw r.store (
        rw⁻¹ digest (
          indexed-set purged.device_code_digest_index purged.enrollments e.device_code_digest
            e.enrollment_id e named)) in
    let by_code : indexed t.user_code_index t.enrollments user_code ≡ some e = rw r.store (
      rw⁻¹ code (
        indexed-set purged.user_code_index purged.enrollments e.user_code e.enrollment_id e
          named)) in
    (
      rw (find_by_device_code_digest, by_digest) (unexpired_kept now e le),
      rw (find_by_user_code, reads, by_code) (ap found (unexpired_kept now e le)),
    )
