-- ===== src/Jobs/Scripts/Record.antt =====
-- V2_RECORD_RESULT_SCRIPT of services/server/src/jobs/v2-assignment-script.ts.
use chief_everything_officer.Base.{
  ℕ, String, Bool, not, Option, none, some, ◌==◌, ◌&&◌, holds_text, if◌then◌else◌,
}
use chief_everything_officer.Base.Redis.{Slot, put, is_bad_type}
use chief_everything_officer.Jobs.Records.{
  Job, Attempt, JobResult, Redis, wrongtype, job_not_found, corrupt_job_record, attempt_not_found,
  corrupt_attempt_record, attempt_mismatch, identity_mismatch, stale_result_submission, Reply, done,
  error, ◌>>=◌, ◌>>◌, need, read,
}
use chief_everything_officer.Jobs.Scripts.Start.{Caller}

pub data RecordDecision : Type 0 where
  replayed : JobResult → RecordDecision
  records : Attempt → RecordDecision

abbrev pub same_result : JobResult → JobResult → Bool
same_result a b =
    a.payload_sha256 == b.payload_sha256 && (a.resource_id == b.resource_id && a.target == b.target)

-- The same result again, or another one, which only an explicit redelivery may bring.
abbrev pub replace_result : Attempt → Option JobResult → JobResult → String → Reply RecordDecision
replace_result a none incoming mode = done (records a)
replace_result a (some existing) incoming mode =
    if same_result existing incoming
    then done (replayed existing)
    else if mode == "explicit_redelivery"
    then done (records a)
    else error stale_result_submission

-- With the two records read.
unfoldable pub record_checks : Caller → Job → Attempt → JobResult → String → Reply RecordDecision
record_checks c job a incoming mode = do
  need (a.job_id == job.job_id && holds_text job.latest_attempt_id a.attempt_id) attempt_mismatch
  need (a.device_id == c.device_id && holds_text a.claim_token_sha256 c.claim_token_sha256)
      identity_mismatch
  replace_result a a.result incoming mode

unfoldable pub record_decision : Redis → Caller → JobResult → String → Reply RecordDecision
record_decision r c incoming mode = do
  need (not (is_bad_type (r.jobs c.job_id))) wrongtype
  need (not (is_bad_type (r.attempts c.attempt_id))) wrongtype
  job ← read (r.jobs c.job_id) job_not_found corrupt_job_record
  a ← read (r.attempts c.attempt_id) attempt_not_found corrupt_attempt_record
  record_checks c job a incoming mode

abbrev pub stored_result : JobResult → ℕ → JobResult
stored_result incoming now = record incoming { received_at_ms = now }

abbrev pub with_result : Attempt → JobResult → Attempt
with_result a res = record a { result = some res }

pub data RecordReply : Type 0 where
  recorded again : JobResult → RecordReply

abbrev pub record_commit :
    Redis → Caller → JobResult → ℕ → Reply RecordDecision → Reply RecordReply × Redis
record_commit r c incoming now (error e) = (error e, r)
record_commit r c incoming now (done (replayed existing)) = (done (again existing), r)
record_commit r c incoming now (done (records a)) = (
  done (recorded (stored_result incoming now)),
  record r {
    attempts =
        put c.attempt_id (Slot.value (with_result a (stored_result incoming now))) r.attempts;
  },
)

unfoldable pub record_job_result :
    Redis → Caller → JobResult → String → ℕ → Reply RecordReply × Redis
record_job_result r c incoming mode now =
    record_commit r c incoming now (record_decision r c incoming mode)
