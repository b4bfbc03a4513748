-- ===== src/Connector/Enrollments/Calls.antt =====
-- Sequences of calls on the store of services/server/src/connector/enrollment-store.ts: every
-- method that changes it.
use chief_everything_officer.Base.{ℕ, String, List, [], ◌∷◌}
use chief_everything_officer.Connector.Enrollments.{
  Store, EnrollmentInput, Randomness, purge_expired, create_enrollment,
}
use chief_everything_officer.Connector.Enrollments.Methods.{
  set_consent_nonce, approve, deny, mark_consumed, check_and_record_poll, clear,
}

pub data Call : Type 0 where
  purges : ℕ → Call
  creates : EnrollmentInput → Randomness → Call
  sets_nonce : String → String → Call
  approves : String → String → ℕ → Call
  denies : String → Call
  consumes polls : String → ℕ → Call
  clears : Call

unfoldable pub step : (String → String) → Store → Call → Store
step sha256 s (purges now) = (purge_expired s now).0
step sha256 s (creates input random) = (create_enrollment sha256 s input random).0
step sha256 s (sets_nonce id nonce) = (set_consent_nonce s id nonce).0
step sha256 s (approves id user now) = (approve s id user now).0
step sha256 s (denies id) = (deny s id).0
step sha256 s (consumes id now) = (mark_consumed s id now).0
step sha256 s (polls id now) = (check_and_record_poll s id now).0
step sha256 s clears = clear s

unfoldable pub run : (String → String) → Store → List Call → Store
unfolding step
run sha256 s [] = s
run sha256 s (c ∷ cs) = run sha256 (step sha256 s c) cs
