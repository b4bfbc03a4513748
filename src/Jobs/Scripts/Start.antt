-- ===== src/Jobs/Scripts/Start.antt =====
-- V2_START_JOB_SCRIPT of services/server/src/jobs/v2-assignment-script.ts.
use chief_everything_officer.Base.{ℕ, String, not, ◌&&◌, holds_text}
use chief_everything_officer.Base.Redis.{Slot, put, is_bad_type}
use chief_everything_officer.Jobs.Records.{
  Job, Attempt, AttemptPhase, claimed, running, at, Redis, wrongtype, job_not_found,
  malformed_job_record, attempt_not_found, corrupt_attempt_record, job_not_active,
  identity_mismatch, invalid_attempt_phase, Reply, done, error, ◌>>=◌, ◌>>◌, need, read, is_active,
}
use chief_everything_officer.Jobs.Scripts.{is_sound, is_owned}

-- Whose attempt of which job a call is about.
pub record Caller : Type 0 where
  pub job_id : String
  pub attempt_id : String
  pub device_id : String
  pub claim_token_sha256 : String

pub data StartDecision : Type 0 where
  replayed starts : Attempt → StartDecision

abbrev pub start_phase : Attempt → AttemptPhase → Reply StartDecision
start_phase a running = done (replayed a)
start_phase a claimed = done (starts a)
start_phase a AttemptPhase.terminal = error invalid_attempt_phase

-- With the two records read.
unfoldable pub start_checks : Caller → Job → Attempt → Reply StartDecision
start_checks c job a = do
  need (is_sound a) corrupt_attempt_record
  need (is_active job.status && holds_text job.latest_attempt_id c.attempt_id) job_not_active
  need (is_owned a job c.attempt_id c.device_id c.claim_token_sha256) identity_mismatch
  start_phase a a.phase

unfoldable pub start_decision : Redis → Caller → Reply StartDecision
start_decision r c = do
  need (not (is_bad_type (r.jobs c.job_id))) wrongtype
  need (not (is_bad_type (r.attempts c.attempt_id))) wrongtype
  job ← read (r.jobs c.job_id) job_not_found malformed_job_record
  a ← read (r.attempts c.attempt_id) attempt_not_found corrupt_attempt_record
  start_checks c job a

abbrev pub started : Attempt → ℕ → Attempt
started a now = record a { phase = running; started_at_ms = at now }

pub data StartReply : Type 0 where
  fresh again : Attempt → StartReply

abbrev pub start_commit : Redis → Caller → ℕ → Reply StartDecision → Reply StartReply × Redis
start_commit r c now (error e) = (error e, r)
start_commit r c now (done (replayed a)) = (done (again a), r)
start_commit r c now (done (starts a)) = (
  done (fresh (started a now)),
  record r { attempts = put c.attempt_id (Slot.value (started a now)) r.attempts },
)

unfoldable pub start_job : Redis → Caller → ℕ → Reply StartReply × Redis
start_job r c now = start_commit r c now (start_decision r c)
