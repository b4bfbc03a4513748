-- ===== src/Connector/Enrollments/Consistent/Kept.antt =====
-- The agreement of the maps under a change of one enrolment, an insertion and a deletion.
use chief_everything_officer.Base.{
  some_inj, String, none, some, ◌≡◌, ◌≢◌, ◌⊎◌, refl, sym, ap, ◌∙◌, inl, inr, ◌==◌, eq_iff,
  Bool-cases,
}
use chief_everything_officer.Base.Map.{get, set}
use chief_everything_officer.Base.Map.Laws.{get-set_same, get-set_other, get-delete_other}
use chief_everything_officer.Base.Map.Distinct.{set-IsKeyed, delete-IsKeyed}
use chief_everything_officer.Connector.Enrollments.{Enrollment, Store, drop_enrollment, insert}
use chief_everything_officer.Connector.Enrollments.Moves.{IsSame, Change, unchanged, writes}
use chief_everything_officer.Connector.Enrollments.Methods.{write}
use chief_everything_officer.Connector.Enrollments.Consistent.{
  IsConsistent, same_key, other_key, AfterSet-cases, get-delete-some, keys_ne,
}

-- A written entry is found in place of the one before.
written :
    (s : Store) (id other : String) (e d x : Enrollment)
    → get s.enrollments id ≡ some e
    → get s.enrollments other ≡ some x
    → (y : Enrollment) × (get (set s.enrollments id d) other ≡ some y)
      × ((y ≡ x) ⊎ ((x ≡ e) × (y ≡ d)))
written s id other e d x there h = elim (Bool-cases (id == other)) [
  | inl k ↦
      let eq : id ≡ other = (eq_iff id other).0 k in
      let found : get (set s.enrollments id d) other ≡ some d =
        rw⁻¹ eq (get-set_same s.enrollments id d) in
      let old : x ≡ e = some_inj (sym h ∙ (rw⁻¹ eq there)) in (d, found, inr (old, refl))
  | inr k ↦ (x, get-set_other s.enrollments id other d k ∙ h, inl refl)
]

write-IsConsistent :
    (s : Store) (id : String) (e d : Enrollment)
    → IsConsistent s
    → get s.enrollments id ≡ some e
    → IsSame e d
    → IsConsistent (write s id d)
write-IsConsistent s id e d h there same = record {
  keyed = set-IsKeyed s.enrollments id d h.keyed;
  by_id = λ other x found. elim (AfterSet-cases s.enrollments id other d x found) [
    | same_key k w ↦
        let (own, code, digest) = h.by_id id e there in
        rw (k, w)
          (
            ap (λ i. i.0) same ∙ own,
            ap (λ i. get s.user_code_index i.1.0) same ∙ code,
            ap (λ i. get s.device_code_digest_index i.1.1.0) same ∙ digest,
          )
    | other_key k old ↦ h.by_id other x old
  ];
  by_code = λ code other named.
      let (x, old, c) = h.by_code code other named in
      let (y, now, which) = written s id other e d x there old in
      elim which [
        | inl eq ↦ (y, now, ap (λ (e : Enrollment). e.user_code) eq ∙ c)
        | inr (was, eq) ↦ (y, now, rw (eq, ap (λ i. i.1.0) same) (rw⁻¹ was c))
      ];
  by_digest = λ digest other named.
      let (x, old, c) = h.by_digest digest other named in
      let (y, now, which) = written s id other e d x there old in
      elim which [
        | inl eq ↦ (y, now, ap (λ (e : Enrollment). e.device_code_digest) eq ∙ c)
        | inr (was, eq) ↦ (y, now, rw (eq, ap (λ i. i.1.1.0) same) (rw⁻¹ was c))
      ];
}

pub Change-IsConsistent : (s t : Store) → IsConsistent s → Change s t → IsConsistent t
Change-IsConsistent s t h (unchanged e) = rw e h
Change-IsConsistent s t h (writes id e d there same move eq) =
    rw eq (write-IsConsistent s id e d h there same)

pub insert-IsConsistent :
    (s : Store) (e : Enrollment)
    → IsConsistent s
    → get s.enrollments e.enrollment_id ≡ none
    → get s.user_code_index e.user_code ≡ none
    → get s.device_code_digest_index e.device_code_digest ≡ none
    → IsConsistent (insert s e)
insert-IsConsistent s e h new_id new_code new_digest = record {
  keyed = set-IsKeyed s.enrollments e.enrollment_id e h.keyed;
  by_id = λ other x found. elim (AfterSet-cases s.enrollments e.enrollment_id other e x found) [
    | same_key k w ↦
        rw (k, w)
          (
            refl,
            get-set_same s.user_code_index e.user_code e.enrollment_id,
            get-set_same s.device_code_digest_index e.device_code_digest e.enrollment_id,
          )
    | other_key k old ↦
        let (own, code, digest) = h.by_id other x old in
        let code_ne = keys_ne s.user_code_index e.user_code x.user_code (λ eq. cc) in
        let digest_ne =
          keys_ne s.device_code_digest_index e.device_code_digest x.device_code_digest (λ eq. cc) in
        (
          own,
          get-set_other s.user_code_index e.user_code x.user_code e.enrollment_id code_ne ∙ code,
          get-set_other s.device_code_digest_index e.device_code_digest x.device_code_digest
                e.enrollment_id digest_ne
              ∙ digest,
        )
  ];
  by_code = λ code other named.
      elim (AfterSet-cases s.user_code_index e.user_code code e.enrollment_id other named) [
        | same_key k w ↦ (e, rw w (get-set_same s.enrollments e.enrollment_id e), sym k)
        | other_key k old ↦
            let (x, was, c) = h.by_code code other old in
            let id_ne = keys_ne s.enrollments e.enrollment_id other (λ eq. cc) in
            (x, get-set_other s.enrollments e.enrollment_id other e id_ne ∙ was, c)
      ];
  by_digest = λ digest other named.
      elim (AfterSet-cases s.device_code_digest_index e.device_code_digest digest e.enrollment_id
        other named) [
          | same_key k w ↦ (e, rw w (get-set_same s.enrollments e.enrollment_id e), sym k)
          | other_key k old ↦
              let (x, was, c) = h.by_digest digest other old in
              let id_ne = keys_ne s.enrollments e.enrollment_id other (λ eq. cc) in
              (x, get-set_other s.enrollments e.enrollment_id other e id_ne ∙ was, c)
        ];
}

pub drop-IsConsistent :
    (s : Store) (id : String) (e : Enrollment)
    → IsConsistent s
    → get s.enrollments id ≡ some e
    → IsConsistent (drop_enrollment s id e)
drop-IsConsistent s id e h there =
    let (own, code, digest) = h.by_id id e there in
    record {
      keyed = delete-IsKeyed s.enrollments id h.keyed;
      by_id = λ other x found.
          let (id_ne, old) = get-delete-some s.enrollments id other x found in
          let (own', code', digest') = h.by_id other x old in
          let distinct : id ≢ other = λ eq. absurd (cc ((eq_iff id other).1 eq, id_ne)) in
          let code_ne =
            keys_ne s.user_code_index e.user_code x.user_code
              (λ eq. distinct (some_inj (sym code ∙ eq ∙ code'))) in
          let digest_ne =
            keys_ne s.device_code_digest_index e.device_code_digest x.device_code_digest
              (λ eq. distinct (some_inj (sym digest ∙ eq ∙ digest'))) in
          (
            own',
            get-delete_other s.user_code_index e.user_code x.user_code code_ne ∙ code',
            get-delete_other s.device_code_digest_index e.device_code_digest x.device_code_digest
                  digest_ne
                ∙ digest',
          );
      by_code = λ c other named.
          let (code_ne, old) = get-delete-some s.user_code_index e.user_code c other named in
          let (x, was, eq) = h.by_code c other old in
          let id_ne = keys_ne s.enrollments id other (λ k.
            let same : x ≡ e = some_inj (sym was ∙ sym k ∙ there) in
            let codes : e.user_code ≡ c = rw⁻¹ same eq in
            absurd (cc ((eq_iff e.user_code c).1 codes, code_ne))) in
          (x, get-delete_other s.enrollments id other id_ne ∙ was, eq);
      by_digest = λ c other named.
          let (code_ne, old) =
            get-delete-some s.device_code_digest_index e.device_code_digest c other named in
          let (x, was, eq) = h.by_digest c other old in
          let id_ne = keys_ne s.enrollments id other (λ k.
            let same : x ≡ e = some_inj (sym was ∙ sym k ∙ there) in
            let codes : e.device_code_digest ≡ c = rw⁻¹ same eq in
            absurd (cc ((eq_iff e.device_code_digest c).1 codes, code_ne))) in
          (x, get-delete_other s.enrollments id other id_ne ∙ was, eq);
    }
