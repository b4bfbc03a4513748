-- ===== src/JobService.antt =====
-- Cancellation by a device in services/server/src/jobs/v2-service.ts: the state that a host sees, and
-- cancelJobForDevice with its retries. Calls of others on the job store run at every `await`.
pub mod Cancelled
use Prim.Native.String
use chief_everything_officer.Base.{
  ℕ, zero, suc, String, Bool, true, false, Option, none, some, List, ◌==◌, ltb, is_some,
  if◌then◌else◌,
}
use chief_everything_officer.Base.Redis.{Slot}
use chief_everything_officer.OAuth.Scope.{has}
use chief_everything_officer.Jobs.Records.{
  Job, JobStatus, preparing, active, Attempt, AttemptPhase, StoredReport, Redis, ScriptError,
  job_not_found, cancel_race, Reply, error,
}
use chief_everything_officer.Jobs.Scripts.Cancel.{
  CancelParams, CancelReply, cancelled, replayed, no_change, cancel_job,
}
use chief_everything_officer.TargetDelete.World.{World, wait}

pub data HostJobState : Type 0 where
  queued expired claimed running terminal : HostJobState

abbrev active_state : AttemptPhase → Option HostJobState
active_state AttemptPhase.claimed = some claimed
active_state AttemptPhase.running = some running
active_state AttemptPhase.terminal = none

abbrev finished_state : AttemptPhase → Option HostJobState
finished_state AttemptPhase.terminal = some terminal
finished_state _ = none

abbrev state_of : JobStatus → Job → Option Attempt → ℕ → Option HostJobState
state_of preparing job attempt now = none
state_of JobStatus.queued job attempt now =
    some (if ltb now job.claim_deadline_ms then queued else expired)
state_of active job none now = none
state_of active job (some a) now = active_state a.phase
state_of JobStatus.terminal job none now = if is_some job.cancel then some terminal else none
state_of JobStatus.terminal job (some a) now = finished_state a.phase

-- `none` is the error of a corrupt state.
unfoldable pub derive_host_job_state : Job → Option Attempt → ℕ → Option HostJobState
derive_host_job_state job attempt now = state_of job.status job attempt now

abbrev cancelled_view : Job → String → Option String
cancelled_view job text = if is_some job.cancel then some text else none

abbrev reported : Option StoredReport → (StoredReport → String) → Option String → Option String
reported none field other = other
reported (some r) field other = some (field r)

-- The report of an attempt, or what the cancel record stands for.
unfoldable pub job_execution_status_view : Job → Option Attempt → Option String
job_execution_status_view job none = cancelled_view job "CANCELLED"
job_execution_status_view job (some a) =
    reported a.report (λ (r : StoredReport). r.report.execution_status)
      (cancelled_view job "CANCELLED")

unfoldable pub job_business_outcome_view : Job → Option Attempt → Option String
job_business_outcome_view job none = cancelled_view job "NOT_STARTED"
job_business_outcome_view job (some a) =
    reported a.report (λ (r : StoredReport). r.report.business_outcome)
      (cancelled_view job "NOT_STARTED")

pub data Action : Type 0 where
  cancels already_cancelled already_terminal : Action

-- The previous state and the action of a result, or an error. The statuses and the message that the
-- result repeats are left out.
pub data CancelAnswer : Type 0 where
  result : HostJobState → Action → CancelAnswer
  not_found corrupt race_exhausted : CancelAnswer
  failed : ScriptError → CancelAnswer

-- What the method is given, with the targets that the device is bound to, the hash, and the clock
-- of the server in each round.
pub record CancelRequest : Type 0 where
  pub device_id : String
  pub user_id : String
  pub job_id : String
  pub bound_targets : List String
  pub receipt_of : String → String → String
  pub clock : ℕ → ℕ

abbrev pub or_empty : Option String → String
or_empty none = ""
or_empty (some s) = s

abbrev pub cancel_params : CancelRequest → Job → CancelParams
cancel_params r job = record {
  job_id = job.job_id;
  expected_attempt_id = or_empty job.latest_attempt_id;
  target_id = job.target_id;
  device_id = r.device_id;
  reason = String.◌++◌ "operator cancel by user " (String.◌++◌ r.user_id " via ceo-connector CLI");
  receipt_sha256 = r.receipt_of job.job_id (or_empty job.latest_attempt_id);
}

-- The read of the attempt that a job names: `none` is an error of the read.
abbrev pub attempt_in : Slot Attempt → Option (Option Attempt)
attempt_in Slot.missing = some none
attempt_in (Slot.value a) = some (some a)
attempt_in _ = none

abbrev pub read_attempt : String → World → World × Option (Option Attempt)
read_attempt id w =
    if id == "" then (w, some none) else (wait w, attempt_in ((wait w).store.attempts id))

-- A terminal job is reported as it is.
abbrev pub terminal_action : Option String → Action
terminal_action none = already_cancelled
terminal_action (some s) = if s == "CANCELLED" then already_cancelled else already_terminal

abbrev action_of : CancelReply → Action
action_of cancelled = cancels
action_of replayed = already_cancelled
action_of no_change = already_cancelled

-- The answer to the script's reply; `none` asks for another round.
abbrev pub replied : HostJobState → Reply CancelReply → Option CancelAnswer
replied state (Reply.done reply) = some (result state (action_of reply))
replied state (error cancel_race) = none
replied state (error job_not_found) = some not_found
replied state (error e) = some (failed e)

abbrev pub cancel_state :
    CancelRequest → Job → Option Attempt → World → Option HostJobState → World × Option CancelAnswer
cancel_state r job attempt w none = (w, some corrupt)
cancel_state r job attempt w (some terminal) =
    (w, some (result terminal (terminal_action (job_execution_status_view job attempt))))
cancel_state r job attempt w (some state) =
    let v = wait w in
    let answer = cancel_job v.store (cancel_params r job) v.now_ms in
    (record v { store = answer.1 }, replied state answer.0)

abbrev pub cancel_read :
    CancelRequest → ℕ → Job → World × Option (Option Attempt) → World × Option CancelAnswer
cancel_read r clock job (w, none) = (w, some corrupt)
cancel_read r clock job (w, some attempt) =
    cancel_state r job attempt w (derive_host_job_state job attempt clock)

-- A job of a target that the device is not bound to is as if it were missing.
abbrev pub cancel_found : CancelRequest → ℕ → World → Slot Job → World × Option CancelAnswer
cancel_found r clock w Slot.missing = (w, some not_found)
cancel_found r clock w (Slot.value job) =
    if has r.bound_targets job.target_id
    then cancel_read r clock job (read_attempt (or_empty job.latest_attempt_id) w)
    else (w, some not_found)
cancel_found r clock w _ = (w, some corrupt)

-- The body of the loop.
unfoldable pub cancel_round : CancelRequest → ℕ → World → World × Option CancelAnswer
unfolding derive_host_job_state job_execution_status_view
cancel_round r clock w = cancel_found r clock (wait w) ((wait w).store.jobs r.job_id)

unfoldable pub cancel_rounds : ℕ → CancelRequest → World → World × CancelAnswer
unfolding cancel_round
cancel_rounds zero r w = (w, race_exhausted)
cancel_rounds (suc n) r w =
    let ended = cancel_round r (r.clock n) w in
    elim ended.1 [ some answer ↦ (ended.0, answer) | none ↦ cancel_rounds n r ended.0 ]

abbrev pub job_cancel_max_race_retries : ℕ
job_cancel_max_race_retries = 3

-- From the loop on; the pattern of the identifier is tested before.
unfoldable pub cancel_job_for_device : CancelRequest → World → World × CancelAnswer
unfolding cancel_rounds
cancel_job_for_device r w = cancel_rounds job_cancel_max_race_retries r w
