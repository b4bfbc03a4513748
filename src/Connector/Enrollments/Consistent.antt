-- ===== src/Connector/Enrollments/Consistent.antt =====
-- Agreement of the three maps of the store of services/server/src/connector/enrollment-store.ts, as
-- a condition on a store.
pub mod Kept
use chief_everything_officer.Base.{
  some_inj, ℕ, String, Bool, true, false, Option, none, some, List, [], ◌∷◌, ◌≡◌, ◌≢◌, refl, sym,
  ap, ◌∙◌, subst, inl, inr, ◌==◌, eq_iff, eq_refl, Bool-cases, Option-cases, arith, if◌then◌else◌,
}
use chief_everything_officer.Base.Map.{Map, get, set, delete}
use chief_everything_officer.Base.Map.Laws.{
  eq_sym, get-set_same, get-set_other, get-delete_same, get-delete_other,
}
use chief_everything_officer.Base.Map.Distinct.{IsKeyed, set-IsKeyed, delete-IsKeyed}
use chief_everything_officer.Connector.Enrollments.{Enrollment, Store, drop_enrollment, insert}
use chief_everything_officer.Connector.Enrollments.Methods.{write}
use chief_everything_officer.Connector.Enrollments.Moves.{IsSame, Change, unchanged, writes}

-- Both indexes name every enrolment, and nothing else.
pub record IsConsistent (s : Store) : Type 0 where
  pub keyed : IsKeyed s.enrollments
  pub by_id :
      (id : String) (e : Enrollment)
      → get s.enrollments id ≡ some e
      → (e.enrollment_id ≡ id)
        × (get s.user_code_index e.user_code ≡ some id)
        × (get s.device_code_digest_index e.device_code_digest ≡ some id)
  pub by_code :
      (code id : String)
      → get s.user_code_index code ≡ some id
      → (e : Enrollment) × (get s.enrollments id ≡ some e) × (e.user_code ≡ code)
  pub by_digest :
      (digest id : String)
      → get s.device_code_digest_index digest ≡ some id
      → (e : Enrollment) × (get s.enrollments id ≡ some e) × (e.device_code_digest ≡ digest)

-- What a lookup after a write of an entry finds: the entry written, or what was there.
pub data AfterSet {V : Type 0} (m : Map V) (key other : String) (v w : V) : Type 0 where
  same_key : other ≡ key → w ≡ v → AfterSet m key other v w
  other_key : (key == other) ≡ false → get m other ≡ some w → AfterSet m key other v w

pub AfterSet-cases :
    {V : Type 0} (m : Map V) (key other : String) (v w : V)
    → get (set m key v) other ≡ some w
    → AfterSet m key other v w
AfterSet-cases m key other v w h = elim (Bool-cases (key == other)) [
  | inl e ↦
      let k : key ≡ other = (eq_iff key other).0 e in
      same_key (sym k) (some_inj (sym h ∙ (rw⁻¹ k (get-set_same m key v))))
  | inr e ↦ other_key e (sym (get-set_other m key other v e) ∙ h)
]

-- What a lookup after a deletion finds was there, under another key.
pub get-delete-some :
    {V : Type 0} (m : Map V) (key other : String) (w : V)
    → get (delete m key) other ≡ some w
    → ((key == other) ≡ false) × (get m other ≡ some w)
get-delete-some m key other w h = elim (Bool-cases (key == other)) [
  | inl e ↦
      let k : key ≡ other = (eq_iff key other).0 e in
      let gone : get (delete m key) other ≡ none = rw⁻¹ k (get-delete_same m key) in
      absurd (cc (h, gone))
  | inr e ↦ (e, sym (get-delete_other m key other e) ∙ h)
]

-- Keys under which a map holds different things are different.
pub keys_ne : {V : Type 0} (m : Map V) (a b : String) → get m a ≢ get m b → (a == b) ≡ false
keys_ne m a b h = elim (Bool-cases (a == b)) [
  | inl e ↦ absurd (h (ap (get m) ((eq_iff a b).0 e)))
  | inr e ↦ e
]
