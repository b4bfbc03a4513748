-- ===== src/TargetDelete/World/Batches.antt =====
-- Batches of a list that grows at its end.
use chief_everything_officer.Base.{
  ℕ, zero, suc, ◌≡◌, arith, subst, ◌+◌, ◌<◌, ◌≤◌, List, [], ◌∷◌, ◌++◌, length, All,
}
use chief_everything_officer.TargetDelete.World.{drop, take}

module _ {ℓ} {A : Type ℓ} (P : A → Type 0) where
  All-prefix : (xs ys : List A) → All P (xs ++ ys) → All P xs
  All-prefix [] ys h = tt
  All-prefix (x ∷ xs) ys (h, hs) = (h, All-prefix xs ys hs)

  -- A short batch is all that was left.
  short-All : (n : ℕ) (xs : List A) → length (take n xs) < n → All P (take n xs) → All P xs
  short-All zero xs l h = absurd (omega arith)
  short-All (suc n) [] l h = tt
  short-All (suc n) (x ∷ xs) l (h, hs) = (h, short-All n xs (omega arith) hs)

  drop-prefix : (c : ℕ) (xs ys : List A) → All P (drop c (xs ++ ys)) → All P (drop c xs)
  drop-prefix zero xs ys h = All-prefix xs ys h
  drop-prefix (suc c) [] ys h = tt
  drop-prefix (suc c) (x ∷ xs) ys h = drop-prefix c xs ys h

  -- After a short batch, nothing that the list had is left.
  pub last-All :
      (n c : ℕ) (xs ys : List A)
      → length (take n (drop c (xs ++ ys))) < n
      → All P (take n (drop c (xs ++ ys)))
      → All P (drop c xs)
  last-All n c xs ys l h = drop-prefix c xs ys (short-All n (drop c (xs ++ ys)) l h)

  take-All : (n : ℕ) (xs ys : List A) → All P (take n (xs ++ ys)) → All P (drop n xs) → All P xs
  take-All zero xs ys h g = g
  take-All (suc n) [] ys h g = tt
  take-All (suc n) (x ∷ xs) ys (h, hs) g = (h, take-All n xs ys hs g)

  -- A batch, and what is behind it.
  pub next-All :
      (n c : ℕ) (xs ys : List A)
      → All P (take n (drop c (xs ++ ys)))
      → All P (drop (c + n) xs)
      → All P (drop c xs)
  next-All n zero xs ys h g =
      let none_before : 0 + n ≡ n = omega arith in
      take-All n xs ys h (subst (λ m. All P (drop m xs)) none_before g)
  next-All n (suc c) [] ys h g = tt
  next-All n (suc c) (x ∷ xs) ys h g =
      let one_more : suc c + n ≡ suc (c + n) = omega arith in
      next-All n c xs ys h (subst (λ m. All P (drop m (x ∷ xs))) one_more g)

module _ {ℓ} {A : Type ℓ} where
  pub length-take-le : (n : ℕ) (xs : List A) → length (take n xs) < suc n
  length-take-le zero xs = omega arith
  length-take-le (suc n) [] = omega arith
  length-take-le (suc n) (x ∷ xs) = omega (arith, length-take-le n xs)

  take-le : (n : ℕ) (xs : List A) → length (take n xs) ≤ length xs
  take-le zero xs = omega arith
  take-le (suc n) [] = omega arith
  take-le (suc n) (x ∷ xs) = omega (arith, take-le n xs)

  -- A full batch stands in the list.
  pub full-le :
      (m c : ℕ) (xs : List A) → length (take (suc m) (drop c xs)) ≡ suc m → c + suc m ≤ length xs
  full-le m zero xs h = omega (arith, take-le (suc m) xs)
  full-le m (suc c) [] h = absurd (omega arith)
  full-le m (suc c) (x ∷ xs) h = omega (arith, full-le m c xs h)
