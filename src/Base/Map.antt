-- ===== src/Base/Map.antt =====
-- JavaScript's `Map` with text keys: entries in the order of insertion, one for each key.
pub mod Laws
pub mod Distinct
use Prim.Native.String.{String}
use mathlib.Core.Bool.{Bool}
use mathlib.Core.List.{List, [], ◌∷◌}
use mathlib.Core.Option.{Option, none, some}
use chief_everything_officer.Base.Tests.{◌==◌, if◌then◌else◌, is_some}

abbrev pub Map : Type 0 → Type 0
Map V = List (String × V)

module _ {V : Type 0} where
  unfoldable pub get : Map V → String → Option V
  get [] key = none
  get ((k, v) ∷ m) key = let rest = get m key in if k == key then some v else rest

  unfoldable pub has : Map V → String → Bool
  unfolding get
  has m key = is_some (get m key)

  -- An entry that is there keeps its place.
  unfoldable pub set : Map V → String → V → Map V
  set [] key v = (key, v) ∷ []
  set ((k, old) ∷ m) key v =
      let rest = set m key v in if k == key then (k, v) ∷ m else (k, old) ∷ rest

  unfoldable pub delete : Map V → String → Map V
  delete [] key = []
  delete ((k, v) ∷ m) key = let rest = delete m key in if k == key then rest else (k, v) ∷ rest
