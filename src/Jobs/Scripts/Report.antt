-- ===== src/Jobs/Scripts/Report.antt =====
-- V2_REPORT_JOB_SCRIPT of services/server/src/jobs/v2-assignment-script.ts.
use chief_everything_officer.Base.{
  ℕ, String, Bool, true, false, not, Option, none, some, ◌==◌, ◌&&◌, ◌||◌, nat_eq, holds_text,
  is_some, if◌then◌else◌,
}
use chief_everything_officer.Base.Redis.{Slot, put, is_bad_type}
use chief_everything_officer.Jobs.Records.{
  Job, JobStatus, Attempt, AttemptPhase, Stamp, null, invalid, at, ReportError, absent, ill_formed,
  failure, Executor, Report, StoredReport, Redis, wrongtype, job_not_found, malformed_job_record,
  attempt_not_found, corrupt_attempt_record, identity_mismatch, invalid_attempt_phase,
  attempt_mismatch, invalid_job_status, report_conflict, invalid_report_schema_version,
  invalid_execution_status, invalid_business_outcome, invalid_task_dispatched,
  invalid_report_finished_at, invalid_report_duration, invalid_report_receipt_sha256,
  invalid_report_executor, completed_report_has_error, invalid_report_error_shape,
  undispatched_report_outcome_invalid, unverified_outcome_requires_dispatched,
  dispatched_report_requires_running, Reply, done, error, ◌>>=◌, ◌>>◌, need, read, is_active,
  is_terminal, is_claimed, is_running, is_finished, is_number, is_null,
}
use chief_everything_officer.Jobs.Scripts.{is_sound, is_owned, is_digest}
use chief_everything_officer.Jobs.Scripts.Start.{Caller}

unfoldable pub is_execution_status : String → Bool
is_execution_status s =
    s == "COMPLETED"
    || (s == "FAILED"
        || (s == "TIMED_OUT" || (s == "CANCELLED" || (s == "BLOCKED" || s == "INTERRUPTED"))))

unfoldable pub is_business_outcome : String → Bool
is_business_outcome s = s == "UNVERIFIED" || (s == "FAILED" || s == "NOT_STARTED")

abbrev pub is_dispatched : Option Bool → Bool
is_dispatched none = false
is_dispatched (some b) = b

abbrev pub is_absent : ReportError → Bool
is_absent absent = true
is_absent _ = false

abbrev pub is_failure : ReportError → Bool
is_failure (failure stage code message) = true
is_failure _ = false

-- The report's own invariants, in the script's order.
unfoldable pub validate_report : Report → Reply (Unit {0})
validate_report rep = do
  need (nat_eq rep.schema_version 2) invalid_report_schema_version
  need (is_execution_status rep.execution_status) invalid_execution_status
  need (is_business_outcome rep.business_outcome) invalid_business_outcome
  need (is_some rep.task_dispatched) invalid_task_dispatched
  need (is_number rep.finished_at_ms) invalid_report_finished_at
  need (is_number rep.duration_ms) invalid_report_duration
  need (is_digest rep.receipt_sha256) invalid_report_receipt_sha256
  need (is_some rep.executor) invalid_report_executor
  need (not (rep.execution_status == "COMPLETED" && not (is_absent rep.error)))
      completed_report_has_error
  need (rep.execution_status == "COMPLETED" || is_failure rep.error) invalid_report_error_shape
  need (is_dispatched rep.task_dispatched || rep.business_outcome == "NOT_STARTED")
      undispatched_report_outcome_invalid
  need (not (rep.business_outcome == "UNVERIFIED" && not (is_dispatched rep.task_dispatched)))
      unverified_outcome_requires_dispatched

abbrev pub bool_eq : Bool → Bool → Bool
bool_eq true b = b
bool_eq false b = not b

abbrev pub same_flag : Option Bool → Option Bool → Bool
same_flag none none = true
same_flag (some a) (some b) = bool_eq a b
same_flag _ _ = false

abbrev pub same_stamp : Stamp → Stamp → Bool
same_stamp (at a) (at b) = nat_eq a b
same_stamp null null = true
same_stamp invalid invalid = true
same_stamp _ _ = false

abbrev pub same_text : Option String → Option String → Bool
same_text none none = true
same_text (some a) (some b) = a == b
same_text _ _ = false

-- `error_match`.
abbrev pub same_error : ReportError → ReportError → Bool
same_error absent absent = true
same_error ill_formed ill_formed = true
same_error (failure s c m) (failure s' c' m') = s == s' && (c == c' && m == m')
same_error _ _ = false

-- `executor_match`.
abbrev pub same_executor : Option Executor → Option Executor → Bool
same_executor (some a) (some b) = a.kind == b.kind && a.version == b.version
same_executor _ _ = false

-- `sem_match`.
unfoldable pub same_report : Report → Report → Bool
same_report a b =
    nat_eq a.schema_version b.schema_version
    && (a.execution_status == b.execution_status
        && (a.business_outcome == b.business_outcome
            && (same_flag a.task_dispatched b.task_dispatched
                && (same_stamp a.finished_at_ms b.finished_at_ms
                    && (same_stamp a.duration_ms b.duration_ms
                        && (same_text a.receipt_sha256 b.receipt_sha256
                            && (same_executor a.executor b.executor
                                && same_error a.error b.error)))))))

pub data ReportDecision : Type 0 where
  replayed : ReportDecision
  finishes : Job → Attempt → ReportDecision

-- A terminal attempt takes its own report again and no other.
abbrev pub replay_report : Option StoredReport → Report → Reply ReportDecision
replay_report none rep = error corrupt_attempt_record
replay_report (some stored) rep =
    if same_report stored.report rep then done replayed else error report_conflict

-- A report of dispatched work needs a running attempt; another one may come from a claimed attempt
-- too.
unfoldable pub finish_checks : Job → Attempt → Report → Reply ReportDecision
finish_checks job a rep = do
  need (is_active job.status) invalid_job_status
  need (is_dispatched rep.task_dispatched || (is_claimed a.phase || is_running a.phase))
      invalid_attempt_phase
  need
      (not (is_dispatched rep.task_dispatched)
        || (is_running a.phase && not (is_null a.started_at_ms)))
      dispatched_report_requires_running
  done (finishes job a)

-- With the two records read.
unfoldable pub report_checks : Caller → Job → Attempt → Report → Reply ReportDecision
report_checks c job a rep = do
  need (is_sound a) corrupt_attempt_record
  need (holds_text job.latest_attempt_id c.attempt_id) attempt_mismatch
  need (is_active job.status || is_terminal job.status) invalid_job_status
  need (is_owned a job c.attempt_id c.device_id c.claim_token_sha256) identity_mismatch
  validate_report rep
  if is_finished a.phase then replay_report a.report rep else finish_checks job a rep

unfoldable pub report_decision : Redis → Caller → Report → Reply ReportDecision
report_decision r c rep = do
  need (not (is_bad_type (r.jobs c.job_id))) wrongtype
  need (not (is_bad_type (r.attempts c.attempt_id))) wrongtype
  job ← read (r.jobs c.job_id) job_not_found malformed_job_record
  a ← read (r.attempts c.attempt_id) attempt_not_found corrupt_attempt_record
  report_checks c job a rep

abbrev pub finished_attempt : Attempt → Report → ℕ → Attempt
finished_attempt a rep now = record a {
  phase = AttemptPhase.terminal;
  report = some (record { report = rep; received_at_ms = now });
}

abbrev pub finished_job : Job → Job
finished_job job = record job { status = JobStatus.terminal }

pub data ReportReply : Type 0 where
  reported again : ReportReply

abbrev pub report_commit :
    Redis → Caller → Report → ℕ → Reply ReportDecision → Reply ReportReply × Redis
report_commit r c rep now (error e) = (error e, r)
report_commit r c rep now (done replayed) = (done again, r)
report_commit r c rep now (done (finishes job a)) = (
  done reported,
  record r {
    attempts = put c.attempt_id (Slot.value (finished_attempt a rep now)) r.attempts;
    jobs = put c.job_id (Slot.value (finished_job job)) r.jobs;
  },
)

unfoldable pub report_job : Redis → Caller → Report → ℕ → Reply ReportReply × Redis
report_job r c rep now = report_commit r c rep now (report_decision r c rep)
