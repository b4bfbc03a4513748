-- ===== src/TargetDelete/Scan.antt =====
-- verifyTargetQuiescence of services/server/src/jobs/target-delete.ts.
pub mod Fuel
pub mod Quiet
use chief_everything_officer.Base.{
  ℕ, zero, suc, ◌+◌, String, Bool, true, false, not, Option, none, some, List, [], ◌∷◌, ◌++◌,
  length, ◌==◌, ◌&&◌, ltb, nat_eq, if◌then◌else◌,
}
use chief_everything_officer.Base.Redis.{Slot}
use chief_everything_officer.Jobs.Records.{
  Job, JobStatus, preparing, queued, active, Attempt, StreamEntry, Redis, is_running,
}
use chief_everything_officer.Jobs.Scripts.Claim.{is_past_deadline}
use chief_everything_officer.Jobs.Scripts.Fences.{touch_fence}
use chief_everything_officer.Jobs.Scripts.Queue.{prune_target_queue}
use chief_everything_officer.TargetDelete.World.{World, wait, drop, take}

-- TARGET_DELETE_STREAM_SCAN_BATCH.
abbrev pub batch_size : ℕ
batch_size = 128

-- The evidence, with the terminal jobs counted and the expired ones.
pub record Tally : Type 0 where
  pub terminal_jobs : ℕ
  pub preparing_ids : List String
  pub queued_ids : List String
  pub claimed_ids : List String
  pub running_ids : List String
  pub expired_ids : List String

abbrev pub empty_tally : Tally
empty_tally = record {
  terminal_jobs = 0;
  preparing_ids = [];
  queued_ids = [];
  claimed_ids = [];
  running_ids = [];
  expired_ids = [];
}

abbrev pub add_claimed : Job → Tally → Tally
add_claimed job t = record t { claimed_ids = t.claimed_ids ++ job.job_id ∷ [] }

abbrev pub add_running : Job → Tally → Tally
add_running job t = record t { running_ids = t.running_ids ++ job.job_id ∷ [] }

-- `none` is the exception of a read that fails.
abbrev pub count_attempt : Job → Slot Attempt → Tally → Option Tally
count_attempt job Slot.missing t = some (add_claimed job t)
count_attempt job (Slot.value a) t =
    some (if is_running a.phase then add_running job t else add_claimed job t)
count_attempt job _ t = none

-- What reading leaves: the tally so far, or the exception of a read that fails.
pub data Step : Type 0 where
  counted : Tally → World → Step
  thrown : World → Step

abbrev pub step_of : Option Tally → World → Step
step_of (some t) w = counted t w
step_of none w = thrown w

abbrev pub count_active : Job → Option String → Tally → World → Step
count_active job none t w = counted (add_claimed job t) w
count_active job (some id) t w =
    if id == ""
    then counted (add_claimed job t) w
    else step_of (count_attempt job ((wait w).store.attempts id) t) (wait w)

abbrev pub count_status : ℕ → Job → JobStatus → Tally → World → Step
count_status now job preparing t w =
    counted (record t { preparing_ids = t.preparing_ids ++ job.job_id ∷ [] }) w
count_status now job queued t w =
    counted
      (if is_past_deadline job now
        then record t { expired_ids = t.expired_ids ++ job.job_id ∷ [] }
        else record t { queued_ids = t.queued_ids ++ job.job_id ∷ [] })
      w
count_status now job active t w = count_active job job.latest_attempt_id t w
count_status now job JobStatus.terminal t w =
    counted (record t { terminal_jobs = suc t.terminal_jobs }) w

abbrev pub count_job : ℕ → Slot Job → Tally → World → Step
count_job now Slot.missing t w = counted t w
count_job now (Slot.value job) t w = count_status now job job.status t w
count_job now _ t w = thrown w

abbrev pub is_of_target : String → StreamEntry → Bool
is_of_target target e = e.target_id == target && not (e.job_id == "")

-- One entry of the stream: another target's is passed over, as is one without a job.
unfoldable pub scan_entry : ℕ → String → StreamEntry → Tally → World → Step
scan_entry now target e t w =
    if is_of_target target e
    then count_job now ((wait w).store.jobs e.job_id) t (wait w)
    else counted t w

unfoldable pub scan_batch : ℕ → String → List StreamEntry → Tally → World → Step
scan_batch now target [] t w = counted t w
scan_batch now target (e ∷ es) t w = elim (scan_entry now target e t w) [
  | thrown v ↦ thrown v
  | counted t' v ↦ scan_batch now target es t' v
]

abbrev pub batch_of : ℕ → Slot (List StreamEntry) → Option (List StreamEntry)
batch_of cursor Slot.missing = some []
batch_of cursor (Slot.value es) = some (take batch_size (drop cursor es))
batch_of cursor _ = none

unfoldable pub touch : String → String → World → World
touch target token w =
    let v = wait w in record v { store = (touch_fence v.store target token v.now_ms).1 }

pub data ScanEnd : Type 0 where
  finished : Tally → World → ScanEnd
  failed : World → ScanEnd
  unfinished : ScanEnd

-- The `while` loop, on fuel. The cursor counts the entries that are behind.
unfoldable pub scan_loop : ℕ → ℕ → String → String → ℕ → Tally → World → ScanEnd
scan_loop zero now target token cursor t w = unfinished
scan_loop (suc n) now target token cursor t w = elim (batch_of cursor (wait w).store.stream) [
  | none ↦ failed (wait w)
  | some es ↦ elim (nat_eq (length es) 0) [
    | true ↦ finished t (wait w)
    | false ↦ elim (scan_batch now target es t (wait w)) [
      | thrown u ↦ failed u
      | counted t' u ↦ elim (ltb (length es) batch_size) [
        | true ↦ finished t' (touch target token u)
        | false ↦ scan_loop n now target token (cursor + length es) t' (touch target token u)
      ]
    ]
  ]
]

abbrev pub prune_expired : String → List String → World → World
prune_expired target [] w = w
prune_expired target (id ∷ ids) w =
    let v = wait w in record v { store = (prune_target_queue v.store target (id ∷ ids)).1 }

abbrev pub blocked : Tally → ℕ
blocked t =
    length t.preparing_ids + (length t.queued_ids + (length t.claimed_ids + length t.running_ids))

abbrev pub verify_end : String → ScanEnd → ScanEnd
verify_end target (finished t w) = finished t (prune_expired target t.expired_ids w)
verify_end target end = end

-- The target is quiescent when the tally that this ends with has nothing `blocked`.
unfoldable pub verify_target_quiescence : ℕ → ℕ → String → String → World → ScanEnd
verify_target_quiescence fuel now target token w =
    verify_end target (scan_loop fuel now target token 0 empty_tally w)
