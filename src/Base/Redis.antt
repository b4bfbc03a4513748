-- ===== src/Base/Redis.antt =====
-- A family of Redis keys: what stands at each key, and the operations that the scripts use.
-- A stored text that does not decode as JSON is `malformed`; `wrong_type` is a key of another type.
pub mod Laws
use Prim.Native.Nat.{ℕ}
use Prim.Native.String.{String}
use mathlib.Core.Bool.{Bool, true, false}
use mathlib.Core.List.{List, [], ◌∷◌, ◌++◌}
use mathlib.Core.Option.{Option, none, some}
use chief_everything_officer.Base.Tests.{◌==◌, if◌then◌else◌}

pub data Slot {ℓ} (A : Type ℓ) : Type ℓ where
  missing wrong_type malformed : Slot A
  value : A → Slot A

abbrev pub Keys : Type 0 → Type 0
Keys A = String → Slot A

-- The scripts' `badtype`.
abbrev pub is_bad_type {ℓ} : {A : Type ℓ} → Slot A → Bool
is_bad_type wrong_type = true
is_bad_type _ = false

abbrev pub is_missing {ℓ} : {A : Type ℓ} → Slot A → Bool
is_missing missing = true
is_missing _ = false

-- `SET key v`.
unfoldable pub put {ℓ} : {A : Type ℓ} → String → Slot A → (String → Slot A) → String → Slot A
put key v keys k = if k == key then v else keys k

-- A sorted set: members with their scores.
abbrev pub Zset : Type 0
Zset = List (ℕ × String)

unfoldable pub without : String → Zset → Zset
without m [] = []
without m ((score, n) ∷ z) = let rest = without m z in if n == m then rest else (score, n) ∷ rest

unfoldable pub zadd : ℕ → String → Slot Zset → Slot Zset
zadd score m (value z) = value (without m z ++ (score, m) ∷ [])
zadd score m missing = value ((score, m) ∷ [])
zadd score m s = s

unfoldable pub zrem : String → Slot Zset → Slot Zset
zrem m (value z) = value (without m z)
zrem m s = s
