-- ===== src/Tests/Enrollments.antt =====
-- The theorems on device enrolments at concrete inputs.
use chief_everything_officer.Base.{
  ℕ, ◌≤◌, String, true, false, none, some, List, [], ◌∷◌, ◌≡◌, refl, arith, ◌==◌,
}
use chief_everything_officer.Base.Map.{get, has, set, delete}
use chief_everything_officer.OAuth.Scope.{trim, trim_start, trim_end, is_space}
use chief_everything_officer.OAuth.Scope as Scope
use chief_everything_officer.Connector.UserCode.{
  is_char, char_at, draw_symbols, generate_user_code, translate, upper_of, to_upper_case, includes,
  match_symbols, match_hyphen, is_user_code, hyphenate, normalize_device_user_code,
}
use chief_everything_officer.Connector.UserCode.Symbols.{cased}
use chief_everything_officer.Connector.UserCode.Typed.{typed, bare, normalize-generate}
use chief_everything_officer.Connector.Enrollments.{
  Enrollment, Store, EnrollmentInput, Randomness, new_store, purge_entries, purge_expired,
  utf16_length, lower_text, normal_platform, all_hex, is_sha256_hex, draw_user_code, create_in,
  create_enrollment, new_enrollment,
}
use chief_everything_officer.Connector.Enrollments.Methods.{
  unexpired, indexed, find_by_user_code, found, find_by_device_code_digest, size, set_consent_nonce,
  approve, deny, mark_consumed, check_and_record_poll,
}
use chief_everything_officer.Connector.Enrollments.Calls.{
  Call, creates, approves, denies, consumes, step, run,
}
use chief_everything_officer.Connector.Enrollments.Bounds.{size-run_le}
use chief_everything_officer.Connector.Enrollments.Codes.{draw_user_code-some}
use chief_everything_officer.Connector.Enrollments.Consistent.{IsConsistent}
use chief_everything_officer.Connector.Enrollments.Histories.{history-IsConsistent}
use chief_everything_officer.Connector.Enrollments.Final.{Follows, run-Follows}
use chief_everything_officer.Connector.Enrollments.Purged.{purge_expired-get}
use chief_everything_officer.Connector.Enrollments.Found.{create_enrollment-found}

-- What a run computes with.
running_enrollments : Unit {0}
unfolding ◌==◌ get has set delete trim trim_start trim_end is_space Scope.has is_char char_at
    draw_symbols generate_user_code translate upper_of to_upper_case includes match_symbols
    match_hyphen is_user_code hyphenate normalize_device_user_code cased typed bare purge_entries
    purge_expired utf16_length lower_text normal_platform all_hex is_sha256_hex draw_user_code
    create_in create_enrollment indexed find_by_user_code find_by_device_code_digest size
    set_consent_nonce approve deny mark_consumed check_and_record_poll step run
running_enrollments = tt

abbrev digest_of : String → String
digest_of s = s

abbrev input : EnrollmentInput
input = record {
  display_name = " laptop ";
  platform = "Linux";
  credential_secret_digest = "0123456789abcdef0123456789abcdef0123456789abcdef0123456789abcdef";
  now_ms = 1000;
  ttl_ms = none;
}

abbrev bytes : List ℕ
bytes = 28 ∷ 29 ∷ 8 ∷ 39 ∷ 10 ∷ 0 ∷ 1 ∷ 255 ∷ []

abbrev random : Randomness
random = record {
  user_code_bytes = bytes ∷ [];
  device_code = "dc";
  enrollment_uuid = "1";
  device_uuid = "2";
  credential_uuid = "3";
}

abbrev start : Store
start = new_store 2 600000

abbrev one : Store
one = (create_enrollment digest_of start input random).0

abbrev enrollment : Enrollment
enrollment = new_enrollment digest_of start input random "YZAB-C23H"

normalize-generate_example :
    (normalize_device_user_code "yZAb-C23H" ≡ some "YZAB-C23H")
    × (normalize_device_user_code "yZAbC23H" ≡ some "YZAB-C23H")
unfolding running_enrollments
normalize-generate_example =
    normalize-generate 28 29 8 39 10 0 1 255 (true ∷ false ∷ false ∷ true ∷ [])

abbrev calls : List Call
calls = creates input random ∷ approves "enr_1" "u1" 2000 ∷ consumes "enr_1" 3000 ∷ []

size-run_le_example : size (run digest_of (new_store 2 600000) calls) ≤ 2
size-run_le_example = size-run_le digest_of 2 600000 calls

history-IsConsistent_example : IsConsistent (run digest_of (new_store 2 600000) calls)
unfolding running_enrollments
history-IsConsistent_example =
    history-IsConsistent digest_of 2 600000 calls ((refl, refl), (tt, (tt, tt)))

purge_expired-get_example :
    get (purge_expired one 601001).0.enrollments "enr_1"
    ≡ unexpired 601001 (get one.enrollments "enr_1")
unfolding running_enrollments
purge_expired-get_example =
    purge_expired-get one 601001 "enr_1"
      (history-IsConsistent digest_of 2 600000 (creates input random ∷ []) ((refl, refl), tt))

run-Follows_example :
    Follows (get one.enrollments "enr_1") (
      get
        (run digest_of one (approves "enr_1" "u1" 2000 ∷ denies "enr_1" ∷ [])).enrollments
        "enr_1")
unfolding running_enrollments
run-Follows_example =
    run-Follows digest_of one (approves "enr_1" "u1" 2000 ∷ denies "enr_1" ∷ []) "enr_1"
      (history-IsConsistent digest_of 2 600000 (creates input random ∷ []) ((refl, refl), tt))
      (tt, (tt, tt)) (tt, (tt, tt))

draw_user_code-some_example :
    (code : String) × (draw_user_code one.user_code_index (bytes ∷ (0 ∷ []) ∷ []) ≡ some code)
    × (has one.user_code_index code ≡ false)
unfolding running_enrollments
draw_user_code-some_example =
    draw_user_code-some one.user_code_index (bytes ∷ (0 ∷ []) ∷ []) ((refl, tt), (tt, tt))
      (omega arith)

create_enrollment-found_example :
    (find_by_device_code_digest one "dc" 5000 ≡ some enrollment)
    × (find_by_user_code one " yzab-c23h" 5000 ≡ found (some enrollment))
unfolding running_enrollments
create_enrollment-found_example =
    create_enrollment-found digest_of start one input random enrollment "dc" "YZAB-C23H"
      " yzab-c23h" 5000 refl (omega arith) refl
