-- ===== src/Base/Sql.antt =====
-- SQLite tables as lists of rows in insertion order: `SELECT … LIMIT 1`, `UPDATE … WHERE` with its
-- number of changed rows, and `INSERT` against a PRIMARY KEY or UNIQUE constraint.
pub mod Laws
use chief_everything_officer.Base.Tests.{if◌then◌else◌}
use chief_everything_officer.Base.Lists.{length, All}
use Prim.Native.Nat.{ℕ, zero, suc, ◌+◌}
use mathlib.Core.Path.{◌≡◌, refl, ap}
use mathlib.Core.Bool.{Bool, true, false, ◌&&◌, ◌||◌}
use mathlib.Core.Option.{Option, none, some}
use mathlib.Core.List.{List, [], ◌∷◌, ◌++◌}
use native.Mathlib.Omega.{arith}

module _ {ℓ} {A : Type ℓ} where
  -- `SELECT * FROM t WHERE p LIMIT 1`.
  unfoldable pub find_row : (A → Bool) → List A → Option A
  find_row p [] = none
  find_row p (x ∷ xs) = if p x then some x else find_row p xs

  -- `UPDATE t SET f WHERE p`.
  unfoldable pub update_rows : (A → Bool) → (A → A) → List A → List A
  update_rows p f [] = []
  update_rows p f (x ∷ xs) = (if p x then f x else x) ∷ update_rows p f xs

  -- The `changes` of such an update, and `SELECT COUNT(*)`.
  unfoldable pub count_rows : (A → Bool) → List A → ℕ
  count_rows p [] = 0
  count_rows p (x ∷ xs) = (if p x then 1 else 0) + count_rows p xs

  -- `INSERT INTO t`: refused when a row already stands for the new one's unique columns.
  unfoldable pub insert_row : (A → A → Bool) → A → List A → Option (List A)
  unfolding find_row
  insert_row same a xs = elim (find_row (same a) xs) [ none ↦ some (xs ++ a ∷ []) | some _ ↦ none ]
