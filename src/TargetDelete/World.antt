-- ===== src/TargetDelete/World.antt =====
-- The store and the clocks as an asynchronous function sees them, and its reads of v2-store.ts.
pub mod Batches
use chief_everything_officer.Base.{ℕ, String, Bool, true, false, List, [], ◌∷◌, ◌-◌, suc, zero, ◌+◌}
use chief_everything_officer.Base.Redis.{Slot}
use chief_everything_officer.Jobs.Records.{Job, Attempt, StreamEntry, Fence, Redis}
use chief_everything_officer.Jobs.Machine.Calls.{JobCall, run}

-- The calls of others before the function goes on, and the Redis clock at which it does.
pub record Gap : Type 0 where
  pub calls : List JobCall
  pub now_ms : ℕ

-- With no gap left nothing else happens, at the last clock.
pub record World : Type 0 where
  pub store : Redis
  pub now_ms : ℕ
  pub gaps : List Gap

abbrev wait_gap : World → List Gap → World
wait_gap w [] = w
wait_gap w (g ∷ gs) = record { store = run w.store g.calls; now_ms = g.now_ms; gaps = gs }

unfoldable pub wait : World → World
wait w = wait_gap w w.gaps

-- The entries of the stream after a number of them, and a number of those. The identifiers that
-- XADD chooses grow, so the entries after an identifier are those behind it.
abbrev pub drop {ℓ} : {A : Type ℓ} → ℕ → List A → List A
drop zero xs = xs
drop (suc n) [] = []
drop (suc n) (x ∷ xs) = drop n xs

abbrev pub take {ℓ} : {A : Type ℓ} → ℕ → List A → List A
take zero xs = []
take (suc n) [] = []
take (suc n) (x ∷ xs) = x ∷ take n xs
