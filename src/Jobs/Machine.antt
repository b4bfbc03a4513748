-- ===== src/Jobs/Machine.antt =====
-- The state machines that the scripts of services/server/src/jobs/v2-assignment-script.ts move: what
-- one call may do to the record at a key.
pub mod Calls
pub mod Decisions
pub mod Jobs
pub mod Attempts
pub mod Fences
pub mod Requests
pub mod Stream
use chief_everything_officer.Base.{ℕ, String, Bool, true, Option, none, some, ◌≡◌, ◌||◌}
use chief_everything_officer.Base.Redis.{Slot}
use chief_everything_officer.Jobs.Records.{
  Job, JobStatus, queued, CancelRecord, Attempt, AttemptPhase, claimed, running, Stamp, null, at,
  JobResult, StoredReport, is_queued, is_active, is_claimed, is_running,
}

-- One call on the job at a key: nothing; a new queued job; a claim; the end of an active job; or the
-- cancellation of a queued or active one.
pub data JobMove (x y : Slot Job) : Type 0 where
  keeps : y ≡ x → JobMove x y
  creates :
      (j : Job)
      → x ≡ Slot.missing
      → y ≡ Slot.value j
      → j.status ≡ queued
      → j.latest_attempt_id ≡ none
      → JobMove x y
  claims :
      (j : Job) (attempt_id : String)
      → x ≡ Slot.value j
      → is_queued j.status ≡ true
      → y ≡ Slot.value (record j { status = JobStatus.active; latest_attempt_id = some attempt_id })
      → JobMove x y
  finishes :
      (j : Job)
      → x ≡ Slot.value j
      → is_active j.status ≡ true
      → y ≡ Slot.value (record j { status = JobStatus.terminal })
      → JobMove x y
  cancels :
      (j : Job) (c : CancelRecord)
      → x ≡ Slot.value j
      → (is_queued j.status || is_active j.status) ≡ true
      → y ≡ Slot.value (record j { status = JobStatus.terminal; cancel = some c })
      → JobMove x y

-- One call on the attempt at a key: nothing; a new claimed attempt; its start; its report; or a
-- result attached to it.
pub data AttemptMove (x y : Slot Attempt) : Type 0 where
  keeps : y ≡ x → AttemptMove x y
  claims :
      (a : Attempt)
      → x ≡ Slot.missing
      → y ≡ Slot.value a
      → a.phase ≡ claimed
      → a.report ≡ none
      → AttemptMove x y
  starts :
      (a : Attempt) (now : ℕ)
      → x ≡ Slot.value a
      → is_claimed a.phase ≡ true
      → y ≡ Slot.value (record a { phase = running; started_at_ms = at now })
      → AttemptMove x y
  reports :
      (a : Attempt) (s : StoredReport)
      → x ≡ Slot.value a
      → (is_claimed a.phase || is_running a.phase) ≡ true
      → y ≡ Slot.value (record a { phase = AttemptPhase.terminal; report = some s })
      → AttemptMove x y
  results :
      (a : Attempt) (res : JobResult)
      → x ≡ Slot.value a
      → y ≡ Slot.value (record a { result = some res })
      → AttemptMove x y
