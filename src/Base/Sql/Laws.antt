-- ===== src/Base/Sql/Laws.antt =====
-- What the queries find after an update or an insert.
use Prim.Native.Nat.{◌+◌}
use mathlib.Core.Path.{◌≡◌, refl, subst}
use mathlib.Core.Logic.{inl, inr}
use mathlib.Core.Bool.{Bool, true}
use mathlib.Core.Option.{none, some}
use mathlib.Core.List.{List, [], ◌∷◌, ◌++◌}
use native.Mathlib.Omega.{arith}
use chief_everything_officer.Base.Tests.{if◌then◌else◌, Bool-cases}
use chief_everything_officer.Base.Lists.{All}
use chief_everything_officer.Base.Sql.{find_row, update_rows, count_rows, insert_row}

module _ {ℓ} {A : Type ℓ} (p : A → Bool) where
  -- The row that is found passes the test.
  pub find_row-passes : (xs : List A) {x : A} → find_row p xs ≡ some x → p x ≡ true
  unfolding find_row
  find_row-passes [] h = cc
  find_row-passes (y ∷ ys) {x} h = ground (arith, find_row-passes ys {x = x})

  pub find_row-append :
      (xs ys : List A) {x : A} → find_row p xs ≡ some x → find_row p (xs ++ ys) ≡ some x
  unfolding find_row
  find_row-append [] ys h = cc
  find_row-append (z ∷ xs) ys {x} h = ground (arith, find_row-append xs ys {x = x})

  -- Where the row found has a property that all rows have.
  pub find_row-All {κ} :
      (P : A → Type κ) (xs : List A) {x : A} → All P xs → find_row p xs ≡ some x → P x
  unfolding find_row
  find_row-All P [] h e = cc
  find_row-All P (y ∷ ys) {x} h e = elim (Bool-cases (p y)) [
    | inl t ↦ let same : y ≡ x = ground arith in subst P same h.0
    | inr t ↦ find_row-All P ys h.1 (ground arith)
  ]

  -- An update that keeps the test finds the same row, updated.
  pub find_row-update :
      (q : A → Bool) (f : A → A)
      → ((x : A) → p (f x) ≡ p x)
      → (xs : List A) {x : A} → find_row p xs ≡ some x
      → find_row p (update_rows q f xs) ≡ some (if q x then f x else x)
  unfolding find_row update_rows
  find_row-update q f keep [] h = cc
  find_row-update q f keep (y ∷ ys) {x} h =
      ground (arith, keep y, find_row-update q f keep ys {x = x})

module _ {ℓ} {A : Type ℓ} where
  -- An insert adds its row at the end, and finds no other with its unique columns.
  pub insert_row-some :
      (same : A → A → Bool) (a : A) (xs : List A) {ys : List A}
      → insert_row same a xs ≡ some ys
      → (ys ≡ xs ++ a ∷ []) × (find_row (same a) xs ≡ none)
  unfolding insert_row
  insert_row-some same a xs h = ground arith

  pub count_rows-append :
      (p : A → Bool) (xs ys : List A) → count_rows p (xs ++ ys) ≡ count_rows p xs + count_rows p ys
  unfolding count_rows
  count_rows-append p [] ys = omega arith
  count_rows-append p (x ∷ xs) ys = omega (arith, count_rows-append p xs ys)

  pub All-update {κ} :
      (P : A → Type κ) (q : A → Bool) (f : A → A)
      → ((x : A) → P x → P (f x))
      → (xs : List A) → All P xs
      → All P (update_rows q f xs)
  unfolding update_rows
  All-update P q f keep [] h = tt
  All-update P q f keep (x ∷ xs) h = elim (Bool-cases (q x)) [
    | inl t ↦ rw t (keep x h.0, All-update P q f keep xs h.1)
    | inr t ↦ rw t (h.0, All-update P q f keep xs h.1)
  ]

  pub find_row-none :
      (p q : A → Bool)
      → ((x : A) → p x ≡ true → q x ≡ true)
      → (xs : List A) → find_row q xs ≡ none
      → find_row p xs ≡ none
  unfolding find_row
  find_row-none p q imp [] h = refl
  find_row-none p q imp (x ∷ xs) h = ground (arith, imp x, find_row-none p q imp xs)

  pub find_row-last :
      (p : A → Bool) (xs : List A) (a : A)
      → find_row p xs ≡ none
      → p a ≡ true
      → find_row p (xs ++ a ∷ []) ≡ some a
  unfolding find_row
  find_row-last p [] a h t = ground arith
  find_row-last p (x ∷ xs) a h t = ground (arith, find_row-last p xs a)

  -- An inserted row is the one that its unique column finds.
  pub find_row-insert :
      (same : A → A → Bool) (p : A → Bool) (a : A) (xs : List A) {ys : List A}
      → ((x : A) → p x ≡ true → same a x ≡ true)
      → p a ≡ true
      → insert_row same a xs ≡ some ys
      → find_row p ys ≡ some a
  find_row-insert same p a xs imp t h =
      let (e, absent) = insert_row-some same a xs h in
      rw e (find_row-last p xs a (find_row-none p (same a) imp xs absent) t)
