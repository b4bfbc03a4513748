-- ===== src/Base/Redis/Laws.antt =====
-- Reading a key after a write.
use Prim.Native.String.{String}
use mathlib.Core.Path.{◌≡◌, refl}
use mathlib.Core.Bool.{false}
use mathlib.Core.Logic.{◌⊎◌, inl, inr}
use native.Mathlib.Omega.{arith}
use chief_everything_officer.Base.Tests.{◌==◌, eq_refl, eq_iff, Bool-cases}
use chief_everything_officer.Base.Redis.{Slot, put}

module _ {ℓ} {A : Type ℓ} where
  pub put_self : (key : String) (v : Slot A) (keys : String → Slot A) → put key v keys key ≡ v
  unfolding put
  put_self key v keys = ground (arith, eq_refl key)

  pub put_other :
      (key k : String) (v : Slot A) (keys : String → Slot A)
      → (k == key) ≡ false
      → put key v keys k ≡ keys k
  unfolding put
  put_other key k v keys h = ground arith

  -- Where a key is read after a write: another key, or the written one.
  pub put-cases :
      (key k : String) (v : Slot A) (keys : String → Slot A)
      → (put key v keys k ≡ keys k) ⊎ ((k ≡ key) × (put key v keys k ≡ v))
  unfolding put
  put-cases key k v keys = elim (Bool-cases (k == key)) [
    | inl e ↦ inr ((eq_iff k key).0 e, ground arith)
    | inr e ↦ inl (ground arith)
  ]

  pub Slot-cases :
      (s : Slot A)
      → ((a : A) × (s ≡ Slot.value a))
        ⊎ ((s ≡ Slot.missing) ⊎ ((s ≡ Slot.malformed) ⊎ (s ≡ Slot.wrong_type)))
  Slot-cases Slot.missing = inr (inl refl)
  Slot-cases Slot.malformed = inr (inr (inl refl))
  Slot-cases Slot.wrong_type = inr (inr (inr refl))
  Slot-cases (Slot.value a) = inl (a, refl)
