-- ===== src/Jobs/Scripts/Cancel.antt =====
-- V2_CANCEL_JOB_SCRIPT of services/server/src/jobs/v2-assignment-script.ts.
use chief_everything_officer.Base.{
  ℕ, String, Bool, true, false, not, Option, none, some, ◌==◌, ◌&&◌, ◌-◌, holds_text, is_some,
  if◌then◌else◌,
}
use chief_everything_officer.Base.Redis.{Slot, put, zrem, is_bad_type}
use chief_everything_officer.Jobs.Records.{
  Job, JobStatus, preparing, queued, active, Attempt, AttemptPhase, claimed, running, Stamp, at,
  failure, Report, StoredReport, Redis, wrongtype, job_not_found, corrupt_job_record,
  corrupt_attempt_record, invalid_attempt_phase, invalid_job_status, cancel_race, Reply, done,
  error, ◌>>=◌, ◌>>◌, need, read, is_finished,
}

-- `expected_attempt_id` is "" where the caller saw no attempt.
pub record CancelParams : Type 0 where
  pub job_id : String
  pub expected_attempt_id : String
  pub target_id : String
  pub device_id : String
  pub reason : String
  pub receipt_sha256 : String

-- The attempt key that the caller derives: `none` is the name that stands for no attempt.
abbrev pub attempt_key : CancelParams → String
attempt_key p = if p.expected_attempt_id == "" then "none" else p.expected_attempt_id

pub data CancelDecision : Type 0 where
  already_cancelled already_terminal : CancelDecision
  cancels_queued : Job → CancelDecision
  cancels_active : Job → Attempt → Report → CancelDecision

abbrev pub terminal_outcome : Option StoredReport → Reply CancelDecision
terminal_outcome none = error corrupt_attempt_record
terminal_outcome (some stored) =
    if stored.report.execution_status == "CANCELLED"
    then done already_cancelled
    else done already_terminal

abbrev pub terminal_attempt : Attempt → Reply CancelDecision
terminal_attempt a = need (is_finished a.phase) corrupt_attempt_record >> terminal_outcome a.report

-- A terminal job is never changed.
unfoldable pub cancel_terminal : Redis → CancelParams → Job → Reply CancelDecision
cancel_terminal r p job =
    if is_some job.latest_attempt_id
    then read (r.attempts (attempt_key p)) corrupt_attempt_record corrupt_attempt_record
      >>= terminal_attempt
    else if is_some job.cancel
    then done already_cancelled
    else error corrupt_job_record

abbrev pub cancelled_report : CancelParams → ℕ → Bool → ℕ → Report
cancelled_report p now dispatched duration = record {
  schema_version = 2;
  execution_status = "CANCELLED";
  business_outcome = if dispatched then "UNVERIFIED" else "NOT_STARTED";
  task_dispatched = some dispatched;
  finished_at_ms = at now;
  duration_ms = at duration;
  receipt_sha256 = some p.receipt_sha256;
  executor = some (record { kind = "operator"; version = "1.0.0" });
  error =
      failure "orchestration" "OPERATOR_CANCELLED" "Job cancelled by operator before completion.";
}

-- The synthetic report. A running attempt counts as dispatched and has run since its start; a
-- negative duration is 0, as `-` on ℕ gives.
abbrev pub operator_report : CancelParams → ℕ → AttemptPhase → Stamp → Reply Report
operator_report p now claimed started = done (cancelled_report p now false 0)
operator_report p now running (at n) = done (cancelled_report p now true (now - n))
operator_report p now running _ = error corrupt_attempt_record
operator_report p now AttemptPhase.terminal started = error invalid_attempt_phase

unfoldable pub cancel_active : Redis → CancelParams → Job → ℕ → Reply CancelDecision
cancel_active r p job now = do
  a ← read (r.attempts (attempt_key p)) corrupt_attempt_record corrupt_attempt_record
  need (a.job_id == job.job_id && holds_text job.latest_attempt_id a.attempt_id)
      corrupt_attempt_record
  rep ← operator_report p now a.phase a.started_at_ms
  done (cancels_active job a rep)

-- `latest_attempt or ''` is the expected one.
abbrev pub linked : Option String → String → Bool
linked none expected = "" == expected
linked (some id) expected = id == expected

abbrev pub cancel_live : Redis → CancelParams → Job → ℕ → JobStatus → Reply CancelDecision
cancel_live r p job now active = cancel_active r p job now
cancel_live r p job now queued = done (cancels_queued job)
cancel_live r p job now _ = error invalid_job_status

abbrev pub cancel_status : Redis → CancelParams → Job → ℕ → JobStatus → Reply CancelDecision
cancel_status r p job now JobStatus.terminal = cancel_terminal r p job
cancel_status r p job now preparing = error invalid_job_status
cancel_status r p job now s =
    need (linked job.latest_attempt_id p.expected_attempt_id) cancel_race
    >> cancel_live r p job now s

unfoldable pub cancel_decision : Redis → CancelParams → ℕ → Reply CancelDecision
cancel_decision r p now = do
  need (not (is_bad_type (r.jobs p.job_id))) wrongtype
  need (not (is_bad_type (r.attempts (attempt_key p)))) wrongtype
  need (not (is_bad_type (r.queues p.target_id))) wrongtype
  job ← read (r.jobs p.job_id) job_not_found corrupt_job_record
  cancel_status r p job now job.status

abbrev pub cancelled_job : CancelParams → ℕ → Job → Job
cancelled_job p now job = record job {
  status = JobStatus.terminal;
  cancel =
      some
        (record { cancelled_at_ms = now; requested_by_device_id = p.device_id; reason = p.reason });
}

abbrev pub cancelled_attempt : Attempt → Report → ℕ → Attempt
cancelled_attempt a rep now = record a {
  phase = AttemptPhase.terminal;
  report = some (record { report = rep; received_at_ms = now });
}

pub data CancelReply : Type 0 where
  cancelled replayed no_change : CancelReply

abbrev pub cancel_commit :
    Redis → CancelParams → ℕ → Reply CancelDecision → Reply CancelReply × Redis
cancel_commit r p now (error e) = (error e, r)
cancel_commit r p now (done already_cancelled) = (done replayed, r)
cancel_commit r p now (done already_terminal) = (done no_change, r)
cancel_commit r p now (done (cancels_queued job)) = (
  done cancelled,
  record r {
    queues = put p.target_id (zrem job.job_id (r.queues p.target_id)) r.queues;
    jobs = put p.job_id (Slot.value (cancelled_job p now job)) r.jobs;
  },
)
cancel_commit r p now (done (cancels_active job a rep)) = (
  done cancelled,
  record r {
    attempts = put (attempt_key p) (Slot.value (cancelled_attempt a rep now)) r.attempts;
    jobs = put p.job_id (Slot.value (cancelled_job p now job)) r.jobs;
  },
)

unfoldable pub cancel_job : Redis → CancelParams → ℕ → Reply CancelReply × Redis
cancel_job r p now = cancel_commit r p now (cancel_decision r p now)
