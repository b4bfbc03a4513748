-- ===== src/Base/Map/Laws.antt =====
-- What a lookup finds after `set` and `delete`, and how they change the size.
use Prim.Native.Nat.{suc, ◌≤◌}
use Prim.Native.String.{String}
use mathlib.Core.Path.{◌≡◌, refl}
use mathlib.Core.Bool.{false}
use mathlib.Core.List.{[], ◌∷◌}
use mathlib.Core.Option.{none, some}
use native.Mathlib.Omega.{arith}
use chief_everything_officer.Base.Tests.{◌==◌, eq_iff, eq_refl}
use chief_everything_officer.Base.Lists.{length}
use chief_everything_officer.Base.Map.{Map, get, set, delete}

pub eq_sym : (s t : String) → (s == t) ≡ false → (t == s) ≡ false
eq_sym s t h = ground (arith, (eq_iff t s).0, eq_refl s)

module _ {V : Type 0} where
  pub get-set_same : (m : Map V) (key : String) (v : V) → get (set m key v) key ≡ some v
  unfolding get set
  get-set_same [] key v = ground (arith, eq_refl key)
  get-set_same ((k, old) ∷ m) key v = ground (arith, eq_refl key, get-set_same m key v)

  pub get-set_other :
      (m : Map V) (key other : String) (v : V)
      → (key == other) ≡ false
      → get (set m key v) other ≡ get m other
  unfolding get set
  get-set_other [] key other v h = ground (arith)
  get-set_other ((k, old) ∷ m) key other v h =
      ground (arith, (eq_iff k key).0, get-set_other m key other v h)

  pub get-delete_same : (m : Map V) (key : String) → get (delete m key) key ≡ none
  unfolding get delete
  get-delete_same [] key = refl
  get-delete_same ((k, v) ∷ m) key = ground (arith, get-delete_same m key)

  pub get-delete_other :
      (m : Map V) (key other : String)
      → (key == other) ≡ false
      → get (delete m key) other ≡ get m other
  unfolding get delete
  get-delete_other [] key other h = refl
  get-delete_other ((k, v) ∷ m) key other h =
      ground (arith, (eq_iff k key).0, get-delete_other m key other h)

  pub length-set_le : (m : Map V) (key : String) (v : V) → length (set m key v) ≤ suc (length m)
  unfolding set
  length-set_le [] key v = omega arith
  length-set_le ((k, old) ∷ m) key v = ground (arith, length-set_le m key v)

  pub length-set_there :
      (m : Map V) (key : String) (v w : V) → get m key ≡ some w → length (set m key v) ≡ length m
  unfolding set get
  length-set_there [] key v w h = absurd (ground arith)
  length-set_there ((k, old) ∷ m) key v w h = ground (arith, length-set_there m key v w)

  pub length-delete_le : (m : Map V) (key : String) → length (delete m key) ≤ length m
  unfolding delete
  length-delete_le [] key = omega arith
  length-delete_le ((k, v) ∷ m) key = ground (arith, length-delete_le m key)
