-- ===== src/Connector/Enrollments.antt =====
-- DeviceEnrollmentStore of services/server/src/connector/enrollment-store.ts: three maps in memory.
-- An enrolment that a method finds is the object in the map, so a change of it is written back.
pub mod Methods
pub mod Codes
pub mod Moves
pub mod Calls
pub mod Bounds
pub mod Purged
pub mod Histories
pub mod Final
pub mod Found
pub mod Consistent
use Prim.Native.Char.{Char, code}
use Prim.Native.String
use chief_everything_officer.Base.{
  ℕ, zero, suc, ◌+◌, ◌-◌, String, Bool, true, false, not, Option, none, some, List, [], ◌∷◌, ◌&&◌,
  ◌||◌, ◌==◌, ltb, leb, nat_eq, length, if◌then◌else◌,
}
use chief_everything_officer.Base.Map.{Map, get, has, set, delete}
use chief_everything_officer.OAuth.Scope.{trim}
use chief_everything_officer.OAuth.Scope as Scope
use chief_everything_officer.Connector.UserCode.{
  chars, text, translate, lower_letters, upper_letters, generate_user_code,
  normalize_device_user_code,
}

pub data State : Type 0 where
  pending approved denied consumed : State

pub record Enrollment : Type 0 where
  pub enrollment_id : String
  pub device_code_digest : String
  pub user_code : String
  pub reserved_device_id : String
  pub reserved_credential_id : String
  pub display_name : String
  pub platform : String
  pub credential_secret_digest : String
  pub state : State
  pub approved_user_id : Option String
  pub consent_nonce_digest : Option String
  pub created_at_ms : ℕ
  pub expires_at_ms : ℕ
  pub approved_at_ms : Option ℕ
  pub consumed_at_ms : Option ℕ
  pub last_poll_at_ms : Option ℕ

-- The fields of DeviceEnrollmentStore; `max_active` and `default_ttl_ms` never change.
pub record Store : Type 0 where
  pub enrollments : Map Enrollment
  pub user_code_index : Map String
  pub device_code_digest_index : Map String
  pub max_active : ℕ
  pub default_ttl_ms : ℕ

abbrev pub max_active_enrollments : ℕ
max_active_enrollments = 1024

abbrev pub device_enrollment_ttl_ms : ℕ
device_enrollment_ttl_ms = 600000

abbrev pub poll_interval_ms : ℕ
poll_interval_ms = 2000

abbrev pub new_store : ℕ → ℕ → Store
new_store max_active ttl = record {
  enrollments = [];
  user_code_index = [];
  device_code_digest_index = [];
  max_active = max_active;
  default_ttl_ms = ttl;
}

-- The body of the loop of `purgeExpired` for one expired entry.
abbrev pub drop_enrollment : Store → String → Enrollment → Store
drop_enrollment s id e = record s {
  enrollments = delete s.enrollments id;
  user_code_index = delete s.user_code_index e.user_code;
  device_code_digest_index = delete s.device_code_digest_index e.device_code_digest;
}

-- The loop of `purgeExpired` over the entries that are still to come.
unfoldable pub purge_entries : ℕ → Map Enrollment → Store → Store × ℕ
purge_entries now [] s = (s, 0)
purge_entries now ((id, e) ∷ rest) s =
    let expired = ltb e.expires_at_ms now in
    let after = purge_entries now rest (if expired then drop_enrollment s id e else s) in
    (after.0, if expired then suc after.1 else after.1)

unfoldable pub purge_expired : Store → ℕ → Store × ℕ
unfolding purge_entries
purge_expired s now = purge_entries now s.enrollments s

-- What `createEnrollment` is asked for.
pub record EnrollmentInput : Type 0 where
  pub display_name : String
  pub platform : String
  pub credential_secret_digest : String
  pub now_ms : ℕ
  pub ttl_ms : Option ℕ

-- What `node:crypto` returns to `createEnrollment`: the bytes of each user code that it draws, the
-- device code, and the three identifiers.
pub record Randomness : Type 0 where
  pub user_code_bytes : List (List ℕ)
  pub device_code : String
  pub enrollment_uuid : String
  pub device_uuid : String
  pub credential_uuid : String

pub data Created : Type 0 where
  invalid_name invalid_platform invalid_digest capacity_exceeded still_drawing : Created
  created : Enrollment → String → String → Created

-- `length` in UTF-16 units.
unfoldable pub utf16_length : String → ℕ
utf16_length String.[] = 0
utf16_length (String.◌∷◌ c s) = (if ltb 0xffff (code c) then 2 else 1) + utf16_length s

unfoldable pub lower_text : List Char → List Char
unfolding translate
lower_text [] = []
lower_text (c ∷ cs) = translate upper_letters lower_letters c ∷ lower_text cs

-- `platform.trim().toLowerCase()`: no character outside ASCII has a letter of a platform as its
-- lower case.
unfoldable pub normal_platform : String → String
unfolding lower_text
normal_platform raw = text (lower_text (chars (trim raw)))

abbrev pub valid_platforms : List String
valid_platforms = "linux" ∷ "windows" ∷ "macos" ∷ []

unfoldable pub all_hex : List Char → Bool
all_hex [] = true
all_hex (c ∷ cs) =
    (leb b'0' (code c) && leb (code c) b'9' || leb b'a' (code c) && leb (code c) b'f') && all_hex cs

-- `SHA256_HEX_RE.test(s)`.
unfoldable pub is_sha256_hex : String → Bool
unfolding all_hex
is_sha256_hex s = nat_eq (length (chars s)) 64 && all_hex (chars s)

-- `while (this.userCodeIndex.has(userCode))`: the first code drawn that is not in use; `none` when
-- the bytes given run out.
unfoldable pub draw_user_code : Map String → List (List ℕ) → Option String
unfolding generate_user_code
draw_user_code index [] = none
draw_user_code index (bytes ∷ more) =
    let drawn = generate_user_code bytes in
    let next = draw_user_code index more in if has index drawn then next else some drawn

abbrev pub or_default : Option ℕ → ℕ → ℕ
or_default none d = d
or_default (some n) d = n

abbrev pub new_enrollment :
    (String → String) → Store → EnrollmentInput → Randomness → String → Enrollment
new_enrollment sha256 s input random user_code = record {
  enrollment_id = String.◌++◌ "enr_" random.enrollment_uuid;
  device_code_digest = sha256 random.device_code;
  user_code = user_code;
  reserved_device_id = String.◌++◌ "dev_" random.device_uuid;
  reserved_credential_id = String.◌++◌ "dcr_" random.credential_uuid;
  display_name = trim input.display_name;
  platform = normal_platform input.platform;
  credential_secret_digest = input.credential_secret_digest;
  state = pending;
  approved_user_id = none;
  consent_nonce_digest = none;
  created_at_ms = input.now_ms;
  expires_at_ms = input.now_ms + or_default input.ttl_ms s.default_ttl_ms;
  approved_at_ms = none;
  consumed_at_ms = none;
  last_poll_at_ms = none;
}

-- The three `set`s at the end of `createEnrollment`.
abbrev pub insert : Store → Enrollment → Store
insert s e = record s {
  enrollments = set s.enrollments e.enrollment_id e;
  user_code_index = set s.user_code_index e.user_code e.enrollment_id;
  device_code_digest_index = set s.device_code_digest_index e.device_code_digest e.enrollment_id;
}

-- From the purge on: `s` is the purged store.
unfoldable pub create_in :
    (String → String) → Store → EnrollmentInput → Randomness → Store × Created
unfolding draw_user_code
create_in sha256 s input random =
    if leb s.max_active (length s.enrollments)
    then (s, capacity_exceeded)
    else elim (draw_user_code s.user_code_index random.user_code_bytes) [
      | none ↦ (s, still_drawing)
      | some user_code ↦
          let e = new_enrollment sha256 s input random user_code in
          (insert s e, created e random.device_code user_code)
    ]

unfoldable pub create_enrollment :
    (String → String) → Store → EnrollmentInput → Randomness → Store × Created
unfolding utf16_length normal_platform is_sha256_hex purge_expired create_in
create_enrollment sha256 s input random =
    let name = trim input.display_name in
    let purged = (purge_expired s input.now_ms).0 in
    if nat_eq (utf16_length name) 0 || ltb 128 (utf16_length name)
    then (s, invalid_name)
    else if not (Scope.has valid_platforms (normal_platform input.platform))
    then (s, invalid_platform)
    else if not (is_sha256_hex input.credential_secret_digest)
    then (s, invalid_digest)
    else create_in sha256 purged input random
