-- ===== src/Connector/Enrollments/Methods.antt =====
-- The lookups and the changes of single enrolments of
-- services/server/src/connector/enrollment-store.ts.
use chief_everything_officer.Base.{
  ℕ, ◌+◌, String, Bool, true, false, Option, none, some, [], ltb, nat_eq, length, if◌then◌else◌,
}
use chief_everything_officer.Base.Map.{Map, get, set}
use chief_everything_officer.OAuth.Scope.{is_empty}
use chief_everything_officer.Connector.UserCode.{normalize_device_user_code}
use chief_everything_officer.Connector.Enrollments.{
  State, pending, approved, denied, consumed, Enrollment, Store, poll_interval_ms,
}

-- The enrolment that an index names; an absent or empty identifier finds nothing.
unfoldable pub indexed : Map String → Map Enrollment → String → Option Enrollment
indexed index enrollments key = elim (get index key) [
  | none ↦ none
  | some id ↦ if is_empty id then none else get enrollments id
]

abbrev pub unexpired : ℕ → Option Enrollment → Option Enrollment
unexpired now none = none
unexpired now (some e) = if ltb e.expires_at_ms now then none else some e

pub data Found : Type 0 where
  invalid_code : Found
  found : Option Enrollment → Found

unfoldable pub find_by_user_code : Store → String → ℕ → Found
unfolding indexed normalize_device_user_code
find_by_user_code s user_code now = elim (normalize_device_user_code user_code) [
  | none ↦ invalid_code
  | some normalized ↦ found (unexpired now (indexed s.user_code_index s.enrollments normalized))
]

unfoldable pub find_by_device_code_digest : Store → String → ℕ → Option Enrollment
unfolding indexed
find_by_device_code_digest s digest now =
    unexpired now (indexed s.device_code_digest_index s.enrollments digest)

unfoldable pub lookup_by_device_code_digest : Store → String → Option Enrollment
unfolding indexed
lookup_by_device_code_digest s digest = indexed s.device_code_digest_index s.enrollments digest

unfoldable pub get_enrollment : Store → String → Option Enrollment
get_enrollment s id = get s.enrollments id

-- The object in the map after a change of its fields.
abbrev pub write : Store → String → Enrollment → Store
write s id e = record s { enrollments = set s.enrollments id e }

abbrev pub is_pending : State → Bool
is_pending pending = true
is_pending _ = false

unfoldable pub set_consent_nonce : Store → String → String → Store × Bool
set_consent_nonce s id nonce_digest = elim (get s.enrollments id) [
  | none ↦ (s, false)
  | some e ↦ (write s id (record e { consent_nonce_digest = some nonce_digest }), true)
]

unfoldable pub approve : Store → String → String → ℕ → Store × Bool
approve s id user_id now = elim (get s.enrollments id) [
  | none ↦ (s, false)
  | some e ↦
      if is_pending e.state
      then if ltb e.expires_at_ms now then (s, false) else (
        write s id (record e {
          state = approved;
          approved_user_id = some user_id;
          approved_at_ms = some now;
        }),
        true,
      )
      else (s, false)
]

unfoldable pub deny : Store → String → Store × Bool
deny s id = elim (get s.enrollments id) [
  | none ↦ (s, false)
  | some e ↦
      if is_pending e.state then (write s id (record e { state = denied }), true) else (s, false)
]

abbrev consume_from : State → Store → String → Enrollment → ℕ → Store × Bool
consume_from consumed s id e now = (s, true)
consume_from approved s id e now =
    (write s id (record e { state = consumed; consumed_at_ms = some now }), true)
consume_from pending s id e now = (s, false)
consume_from denied s id e now = (s, false)

unfoldable pub mark_consumed : Store → String → ℕ → Store × Bool
mark_consumed s id now = elim (get s.enrollments id) [
  | none ↦ (s, false)
  | some e ↦ consume_from e.state s id e now
]

-- `enr.last_poll_at_ms && now - enr.last_poll_at_ms < POLL_INTERVAL_MS`: a time of 0 counts as none.
abbrev pub is_too_soon : Option ℕ → ℕ → Bool
is_too_soon none now = false
is_too_soon (some last) now = if nat_eq last 0 then false else ltb now (last + poll_interval_ms)

-- The answer says whether the device is to slow down.
unfoldable pub check_and_record_poll : Store → String → ℕ → Store × Bool
check_and_record_poll s id now = elim (get s.enrollments id) [
  | none ↦ (s, false)
  | some e ↦
      (write s id (record e { last_poll_at_ms = some now }), is_too_soon e.last_poll_at_ms now)
]

unfoldable pub size : Store → ℕ
size s = length s.enrollments

abbrev pub clear : Store → Store
clear s = record s { enrollments = []; user_code_index = []; device_code_digest_index = [] }
