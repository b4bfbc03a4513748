-- ===== src/Base/Map/Distinct.antt =====
-- Keys that are all different, in a map and in a list of keys that it has.
use Prim.Native.Nat.{◌≤◌, ◌<◌}
use Prim.Native.String.{String}
use mathlib.Core.Path.{◌≡◌, refl, ◌∙◌}
use mathlib.Core.Bool.{true, false}
use mathlib.Core.Logic.{inl, inr}
use mathlib.Core.List.{List, [], ◌∷◌}
use mathlib.Core.Option.{none}
use native.Mathlib.Omega.{arith}
use chief_everything_officer.Base.Tests.{◌==◌, Bool-cases}
use chief_everything_officer.Base.Lists.{length, All}
use chief_everything_officer.Base.Map.{Map, get, has, set, delete}
use chief_everything_officer.Base.Map.Laws.{
  eq_sym, get-set_other, get-delete_other, length-delete_le,
}

-- As JavaScript keeps a `Map`.
abbrev pub IsKeyed : {V : Type 0} → Map V → Type 0
IsKeyed [] = Unit
IsKeyed ((k, v) ∷ m) = (get m k ≡ none) × IsKeyed m

abbrev pub IsDistinct : List String → Type 0
IsDistinct [] = Unit
IsDistinct (k ∷ ks) = All (λ j. (k == j) ≡ false) ks × IsDistinct ks

module _ {V : Type 0} where
  pub set-IsKeyed : (m : Map V) (key : String) (v : V) → IsKeyed m → IsKeyed (set m key v)
  unfolding set get
  set-IsKeyed [] key v h = (refl, tt)
  set-IsKeyed ((k, old) ∷ m) key v h = elim (Bool-cases (k == key)) [
    | inl e ↦ rw e h
    | inr e ↦ rw e (get-set_other m key k v (eq_sym k key e) ∙ h.0, set-IsKeyed m key v h.1)
  ]

  -- A key that is gone stays gone.
  pub get-delete-none :
      (m : Map V) (key other : String) → get m other ≡ none → get (delete m key) other ≡ none
  unfolding get delete
  get-delete-none [] key other h = refl
  get-delete-none ((k, v) ∷ m) key other h = ground (arith, get-delete-none m key other)

  pub delete-IsKeyed : (m : Map V) (key : String) → IsKeyed m → IsKeyed (delete m key)
  unfolding delete
  delete-IsKeyed [] key h = tt
  delete-IsKeyed ((k, v) ∷ m) key h =
      ground (arith, delete-IsKeyed m key h.1, get-delete-none m key k h.0)

  length-delete_lt :
      (m : Map V) (key : String) → has m key ≡ true → length (delete m key) < length m
  unfolding has get delete
  length-delete_lt [] key h = absurd (ground arith)
  length-delete_lt ((k, v) ∷ m) key h =
      ground (arith, length-delete_lt m key, length-delete_le m key)

  has-delete_other :
      (m : Map V) (key : String) (ks : List String)
      → All (λ j. (key == j) ≡ false) ks
      → All (λ j. has m j ≡ true) ks
      → All (λ j. has (delete m key) j ≡ true) ks
  unfolding has
  has-delete_other m key [] d h = tt
  has-delete_other m key (j ∷ ks) d h =
      (rw (get-delete_other m key j d.0) h.0, has-delete_other m key ks d.1 h.1)

  -- A map has no more keys than entries.
  pub distinct_le :
      (m : Map V) (ks : List String)
      → IsDistinct ks
      → All (λ j. has m j ≡ true) ks
      → length ks ≤ length m
  distinct_le m [] d h = omega arith
  distinct_le m (k ∷ ks) d h = omega (
    arith,
    distinct_le (delete m k) ks d.1 (has-delete_other m k ks d.0 h.1),
    length-delete_lt m k h.0,
  )
