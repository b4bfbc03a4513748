-- ===== src/Connector/Enrollments/Codes.antt =====
-- The loop of `createEnrollment` that draws a user code.
use chief_everything_officer.Base.{
  some_inj, leb, ℕ, ◌<◌, String, true, false, none, some, List, [], ◌∷◌, length, map, ◌≡◌, refl,
  inl, inr, Bool-cases, arith, All, Option-cases,
}
use chief_everything_officer.Base.Map.{Map, get, has}
use chief_everything_officer.Base.Map.Distinct.{IsDistinct, distinct_le}
use chief_everything_officer.Connector.UserCode.{generate_user_code}
use chief_everything_officer.Connector.Enrollments.{
  Store, EnrollmentInput, Randomness, new_enrollment, insert, create_in, draw_user_code,
}

drawn_used :
    (index : Map String) (draws : List (List ℕ))
    → draw_user_code index draws ≡ none
    → All (λ code. has index code ≡ true) (map generate_user_code draws)
unfolding draw_user_code
drawn_used index [] e = tt
drawn_used index (bytes ∷ more) e = elim (Bool-cases (has index (generate_user_code bytes))) [
  | inl used ↦ (used, drawn_used index more (ground (arith, used)))
  | inr free ↦ absurd (ground (arith, free))
]

pub draw_user_code-unused :
    (index : Map String) (draws : List (List ℕ)) (code : String)
    → draw_user_code index draws ≡ some code
    → has index code ≡ false
unfolding draw_user_code
draw_user_code-unused index [] code e = absurd (ground arith)
draw_user_code-unused index (bytes ∷ more) code e =
    elim (Bool-cases (has index (generate_user_code bytes))) [
      | inl used ↦ draw_user_code-unused index more code (ground (arith, used))
      | inr free ↦
          let picked : some (generate_user_code bytes) ≡ some code = ground (arith, free) in
          rw⁻¹ (some_inj picked) free
    ]

length-map {ℓ κ} :
    {A : Type ℓ} {B : Type κ} (f : A → B) (xs : List A) → length (map f xs) ≡ length xs
length-map f [] = refl
length-map f (x ∷ xs) = omega (arith, length-map f xs)

-- When the draws give more different codes than the index has entries, the loop ends, with a code
-- that is not in the index.
pub draw_user_code-some :
    (index : Map String) (draws : List (List ℕ))
    → IsDistinct (map generate_user_code draws)
    → length index < length draws
    → (code : String) × (draw_user_code index draws ≡ some code) × (has index code ≡ false)
draw_user_code-some index draws d lt = elim (Option-cases (draw_user_code index draws)) [
  | inl e ↦ absurd (
      omega (
        arith,
        distinct_le index (map generate_user_code draws) d (drawn_used index draws e),
        length-map generate_user_code draws,
      ))
  | inr (code, e) ↦ (code, e, draw_user_code-unused index draws code e)
]

has-none : {V : Type 0} (m : Map V) (key : String) → has m key ≡ false → get m key ≡ none
unfolding has
has-none m key h = elim (Option-cases (get m key)) [
  | inl e ↦ e
  | inr (v, e) ↦ absurd (ground (arith, e))
]

-- Below the limit, and with a code that is not in use, `createEnrollment` inserts the enrolment;
-- else it leaves the purged store.
pub create_in-rule :
    (P : Store → Type 0) (sha256 : String → String) (s : Store) (input : EnrollmentInput)
    (random : Randomness)
    → P s
    → ((code : String)
        → length s.enrollments < s.max_active
        → get s.user_code_index code ≡ none
        → P (insert s (new_enrollment sha256 s input random code)))
    → P (create_in sha256 s input random).0
unfolding create_in
create_in-rule P sha256 s input random h k =
    elim (Bool-cases (leb s.max_active (length s.enrollments))) [
      | inl full ↦ rw full h
      | inr room ↦ elim (Option-cases (draw_user_code s.user_code_index random.user_code_bytes)) [
        | inl e ↦ rw (room, e) h
        | inr (code, e) ↦
            let unused = draw_user_code-unused s.user_code_index random.user_code_bytes code e in
            rw (room, e) (k code (ground (arith, room)) (has-none s.user_code_index code unused))
      ]
    ]
