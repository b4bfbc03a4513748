-- ===== src/Connector/Enrollments/Purged.antt =====
-- What `purgeExpired` of services/server/src/connector/enrollment-store.ts leaves.
use chief_everything_officer.Base.{
  ℕ, String, false, none, some, [], ◌∷◌, ◌≡◌, refl, sym, ◌∙◌, ◌⊎◌, inl, inr, ◌==◌, eq_iff, eq_refl,
  Bool-cases, Option-cases, arith, if◌then◌else◌, ltb, All,
}
use chief_everything_officer.Base.Map.{Map, get}
use chief_everything_officer.Base.Map.Laws.{eq_sym, get-delete_same, get-delete_other}
use chief_everything_officer.Base.Map.Distinct.{IsKeyed}
use chief_everything_officer.Connector.Enrollments.{
  Enrollment, Store, drop_enrollment, purge_entries, purge_expired,
}
use chief_everything_officer.Connector.Enrollments.Methods.{unexpired}
use chief_everything_officer.Connector.Enrollments.Consistent.{IsConsistent}
use chief_everything_officer.Connector.Enrollments.Consistent.Kept.{drop-IsConsistent}

-- The first key of a map that lacks another key is a different one.
cons_none :
    (m : Map Enrollment) (id other : String) (e : Enrollment)
    → get ((id, e) ∷ m) other ≡ none
    → ((id == other) ≡ false) × (get m other ≡ none)
unfolding get
cons_none m id other e h = elim (Bool-cases (id == other)) [
  | inl eq ↦ absurd (ground (arith, eq))
  | inr ne ↦ (ne, ground (arith, ne))
]

-- What is found stands under the first key or in the rest.
cons_some :
    (m : Map Enrollment) (id other : String) (e x : Enrollment)
    → get ((id, e) ∷ m) other ≡ some x
    → ((other ≡ id) × (x ≡ e)) ⊎ (((id == other) ≡ false) × (get m other ≡ some x))
unfolding get
cons_some m id other e x h = elim (Bool-cases (id == other)) [
  | inl eq ↦ inl (sym ((eq_iff id other).0 eq), ground (arith, eq))
  | inr ne ↦ inr (ne, ground (arith, ne))
]

-- The store in which the loop goes on.
abbrev after_entry : ℕ → Store → String → Enrollment → Store
after_entry now s id e = if ltb e.expires_at_ms now then drop_enrollment s id e else s

after_entry-other :
    (now : ℕ) (s : Store) (id other : String) (e : Enrollment)
    → (id == other) ≡ false
    → get (after_entry now s id e).enrollments other ≡ get s.enrollments other
after_entry-other now s id other e ne = elim (Bool-cases (ltb e.expires_at_ms now)) [
  | inl expired ↦ rw expired (get-delete_other s.enrollments id other ne)
  | inr kept ↦ rw kept refl
]

after_entry-same :
    (now : ℕ) (s : Store) (id : String) (e : Enrollment)
    → get s.enrollments id ≡ some e
    → get (after_entry now s id e).enrollments id ≡ unexpired now (some e)
after_entry-same now s id e there = elim (Bool-cases (ltb e.expires_at_ms now)) [
  | inl expired ↦ rw expired (get-delete_same s.enrollments id)
  | inr kept ↦ rw kept there
]

unlisted :
    (now : ℕ) (rest : Map Enrollment) (s : Store) (other : String)
    → get rest other ≡ none
    → get (purge_entries now rest s).0.enrollments other ≡ get s.enrollments other
unfolding purge_entries
unlisted now [] s other h = refl
unlisted now ((id, e) ∷ rest) s other h =
    let (ne, gone) = cons_none rest id other e h in
    unlisted now rest (after_entry now s id e) other gone ∙ after_entry-other now s id other e ne

listed :
    (now : ℕ) (rest : Map Enrollment) (s : Store) (other : String) (x : Enrollment)
    → IsKeyed rest
    → get rest other ≡ some x
    → get s.enrollments other ≡ some x
    → get (purge_entries now rest s).0.enrollments other ≡ unexpired now (some x)
unfolding purge_entries
listed now [] s other x keyed h there = absurd (unfold get in cc)
listed now ((id, e) ∷ rest) s other x keyed h there = elim (cons_some rest id other e x h) [
  | inl (k, same) ↦
      rw (k, same)
        (unlisted now rest (after_entry now s id e) id keyed.0
          ∙ after_entry-same now s id e (rw⁻¹ (k, same) there))
  | inr (ne, tail) ↦
      listed now rest (after_entry now s id e) other x keyed.1 tail
        (after_entry-other now s id other e ne ∙ there)
]

-- When the maps of a store agree, a purge removes the enrolments whose time is past, and no other.
pub purge_expired-get :
    (s : Store) (now : ℕ) (id : String)
    → IsConsistent s
    → get (purge_expired s now).0.enrollments id ≡ unexpired now (get s.enrollments id)
unfolding purge_expired
purge_expired-get s now id h = elim (Option-cases (get s.enrollments id)) [
  | inl gone ↦ unlisted now s.enrollments s id gone ∙ (gone ∙ rw gone refl)
  | inr (e, there) ↦ rw there (listed now s.enrollments s id e h.keyed there there)
]

-- Every entry that is still to come is in the store.
abbrev Pending : Store → Map Enrollment → Type 0
Pending s = All (λ (kv : String × Enrollment). get s.enrollments kv.0 ≡ some kv.1)

after_entry-Pending :
    (now : ℕ) (s : Store) (id : String) (e : Enrollment) (rest : Map Enrollment)
    → get rest id ≡ none
    → Pending s rest
    → Pending (after_entry now s id e) rest
after_entry-Pending now s id e [] gone h = tt
after_entry-Pending now s id e ((other, x) ∷ rest) gone h =
    let (ne, more) = cons_none rest other id x gone in
    (
      after_entry-other now s id other e (eq_sym other id ne) ∙ h.0,
      after_entry-Pending now s id e rest more h.1,
    )

after_entry-IsConsistent :
    (now : ℕ) (s : Store) (id : String) (e : Enrollment)
    → IsConsistent s
    → get s.enrollments id ≡ some e
    → IsConsistent (after_entry now s id e)
after_entry-IsConsistent now s id e h there = elim (Bool-cases (ltb e.expires_at_ms now)) [
  | inl expired ↦ rw expired (drop-IsConsistent s id e h there)
  | inr kept ↦ rw kept h
]

purge_entries-IsConsistent :
    (now : ℕ) (rest : Map Enrollment) (s : Store)
    → IsConsistent s
    → IsKeyed rest
    → Pending s rest
    → IsConsistent (purge_entries now rest s).0
unfolding purge_entries
purge_entries-IsConsistent now [] s h keyed p = h
purge_entries-IsConsistent now ((id, e) ∷ rest) s h keyed p =
    purge_entries-IsConsistent now rest (after_entry now s id e)
      (after_entry-IsConsistent now s id e h p.0) keyed.1
      (after_entry-Pending now s id e rest keyed.0 p.1)

cons-found :
    (k : String) (v : Enrollment) (m rest : Map Enrollment)
    → get rest k ≡ none
    → All (λ (kv : String × Enrollment). get m kv.0 ≡ some kv.1) rest
    → All (λ (kv : String × Enrollment). get ((k, v) ∷ m) kv.0 ≡ some kv.1) rest
cons-found k v m [] gone h = tt
cons-found k v m ((j, x) ∷ rest) gone h =
    let (ne, more) = cons_none rest j k x gone in
    let first : get ((k, v) ∷ m) j ≡ some x = unfold get in ground (arith, eq_sym j k ne, h.0) in
    (first, cons-found k v m rest more h.1)

-- Each entry of a map is found under its key.
keyed-found :
    (m : Map Enrollment) → IsKeyed m → All (λ (kv : String × Enrollment). get m kv.0 ≡ some kv.1) m
keyed-found [] h = tt
keyed-found ((k, v) ∷ m) h =
    let first : get ((k, v) ∷ m) k ≡ some v = unfold get in ground (arith, eq_refl k) in
    (first, cons-found k v m m h.0 (keyed-found m h.1))

pub purge_expired-IsConsistent :
    (s : Store) (now : ℕ) → IsConsistent s → IsConsistent (purge_expired s now).0
unfolding purge_expired
purge_expired-IsConsistent s now h =
    purge_entries-IsConsistent now s.enrollments s h h.keyed (keyed-found s.enrollments h.keyed)
