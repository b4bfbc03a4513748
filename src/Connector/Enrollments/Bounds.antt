-- ===== src/Connector/Enrollments/Bounds.antt =====
-- The number of enrolments in the store of services/server/src/connector/enrollment-store.ts.
use chief_everything_officer.Base.{
  ℕ, ◌≤◌, String, List, [], ◌∷◌, length, ◌≡◌, refl, inl, inr, Bool-cases, arith, ltb,
}
use chief_everything_officer.Base.Map.{Map}
use chief_everything_officer.Base.Map.Laws.{length-set_le, length-set_there, length-delete_le}
use chief_everything_officer.Connector.Enrollments.{
  Enrollment, Store, EnrollmentInput, Randomness, new_store, drop_enrollment, purge_entries,
  purge_expired, new_enrollment, create_in, create_enrollment,
}
use chief_everything_officer.Connector.Enrollments.Methods.{size}
use chief_everything_officer.Connector.Enrollments.Codes.{create_in-rule}
use chief_everything_officer.Connector.Enrollments.Moves.{
  Change, unchanged, writes, set_consent_nonce-Change, approve-Change, deny-Change,
  mark_consumed-Change, check_and_record_poll-Change,
}
use chief_everything_officer.Connector.Enrollments.Calls.{
  Call, purges, creates, sets_nonce, approves, denies, consumes, polls, clears, step, run,
}

record IsBounded (max : ℕ) (s : Store) : Type 0 where
  limit : s.max_active ≡ max
  at_most : length s.enrollments ≤ max

purge_entries-IsBounded :
    (max now : ℕ) (rest : Map Enrollment) (s : Store)
    → IsBounded max s
    → IsBounded max (purge_entries now rest s).0
unfolding purge_entries
purge_entries-IsBounded max now [] s h = h
purge_entries-IsBounded max now ((id, e) ∷ rest) s h = elim (Bool-cases (ltb e.expires_at_ms now)) [
  | inl expired ↦ rw expired (
      purge_entries-IsBounded max now rest (drop_enrollment s id e) (record {
        limit = h.limit;
        at_most = omega (arith, h.at_most, length-delete_le s.enrollments id);
      }))
  | inr kept ↦ rw kept (purge_entries-IsBounded max now rest s h)
]

create_in-IsBounded :
    (sha256 : String → String) (max : ℕ) (s : Store) (input : EnrollmentInput) (random : Randomness)
    → IsBounded max s
    → IsBounded max (create_in sha256 s input random).0
create_in-IsBounded sha256 max s input random h =
    create_in-rule (IsBounded max) sha256 s input random h (λ code room used.
      let e = new_enrollment sha256 s input random code in
      record {
        limit = h.limit;
        at_most = ground (arith, h.limit, room, length-set_le s.enrollments e.enrollment_id e);
      })

Change-IsBounded : (max : ℕ) (s t : Store) → IsBounded max s → Change s t → IsBounded max t
Change-IsBounded max s t h (unchanged e) = rw e h
Change-IsBounded max s t h (writes id d d' there same move e) = rw e (record {
  limit = h.limit;
  at_most = omega (arith, h.at_most, length-set_there s.enrollments id d' d there);
})

create_enrollment-IsBounded :
    (sha256 : String → String) (max : ℕ) (s : Store) (input : EnrollmentInput) (random : Randomness)
    → IsBounded max s
    → IsBounded max (create_enrollment sha256 s input random).0
unfolding create_enrollment purge_expired
create_enrollment-IsBounded sha256 max s input random h = ground (
  arith,
  h,
  create_in-IsBounded sha256 max (purge_entries input.now_ms s.enrollments s).0 input random
      (purge_entries-IsBounded max input.now_ms s.enrollments s h),
)

step-IsBounded :
    (sha256 : String → String) (max : ℕ) (s : Store) (c : Call)
    → IsBounded max s
    → IsBounded max (step sha256 s c)
unfolding step purge_expired
step-IsBounded sha256 max s (purges now) h = purge_entries-IsBounded max now s.enrollments s h
step-IsBounded sha256 max s (creates input random) h =
    create_enrollment-IsBounded sha256 max s input random h
step-IsBounded sha256 max s (sets_nonce id nonce) h =
    Change-IsBounded max s _ h (set_consent_nonce-Change s id nonce)
step-IsBounded sha256 max s (approves id user now) h =
    Change-IsBounded max s _ h (approve-Change s id user now)
step-IsBounded sha256 max s (denies id) h = Change-IsBounded max s _ h (deny-Change s id)
step-IsBounded sha256 max s (consumes id now) h =
    Change-IsBounded max s _ h (mark_consumed-Change s id now)
step-IsBounded sha256 max s (polls id now) h =
    Change-IsBounded max s _ h (check_and_record_poll-Change s id now)
step-IsBounded sha256 max s clears h = record { limit = h.limit; at_most = omega arith }

run-IsBounded :
    (sha256 : String → String) (max : ℕ) (s : Store) (cs : List Call)
    → IsBounded max s
    → IsBounded max (run sha256 s cs)
unfolding run
run-IsBounded sha256 max s [] h = h
run-IsBounded sha256 max s (c ∷ cs) h =
    run-IsBounded sha256 max (step sha256 s c) cs (step-IsBounded sha256 max s c h)

-- However the store is used, it never holds more enrolments than the limit it was made with.
pub size-run_le :
    (sha256 : String → String) (max ttl : ℕ) (cs : List Call)
    → size (run sha256 (new_store max ttl) cs) ≤ max
unfolding size
size-run_le sha256 max ttl cs =
    (run-IsBounded sha256 max (new_store max ttl) cs
      (record { limit = refl; at_most = omega arith })).at_most
