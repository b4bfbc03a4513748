-- ===== src/Jobs/Scripts/Claim.antt =====
-- V2_CLAIM_JOB_SCRIPT of services/server/src/jobs/v2-assignment-script.ts.
use chief_everything_officer.Base.{
  ℕ, String, Bool, not, none, some, ◌==◌, ◌&&◌, ltb, leb, holds_text, if◌then◌else◌,
}
use chief_everything_officer.Base.Redis.{Slot, put, zadd, zrem, is_bad_type, is_missing}
use chief_everything_officer.Jobs.Records.{
  Job, active, Attempt, AttemptPhase, claimed, running, null, at, Redis, wrongtype,
  target_delete_fenced, job_not_found, malformed_job_record, corrupt_attempt_record,
  idempotency_conflict, job_finished, not_owner_replay, job_already_claimed, job_expired,
  attempt_id_collision, Reply, done, error, ◌>>=◌, ◌>>◌, need, read, is_queued,
}
use chief_everything_officer.Jobs.Scripts.{is_fenced, unexpired_fence}

pub record ClaimParams : Type 0 where
  pub job_id : String
  pub workspace_id : String
  pub target_id : String
  pub device_id : String
  pub target_binding_id : String
  pub attempt_id : String
  pub claim_token_sha256 : String
  pub is_replay_only : Bool

-- The same attempt again, the deadline has passed, or the job is free.
pub data ClaimDecision : Type 0 where
  replayed : Attempt → ClaimDecision
  expired : ClaimDecision
  claims : Job → ClaimDecision

abbrev pub same_claim : Attempt → ClaimParams → Bool
same_claim a p =
    a.attempt_id == p.attempt_id
    && (a.job_id == p.job_id
        && (a.workspace_id == p.workspace_id
            && (a.target_id == p.target_id
                && (a.device_id == p.device_id
                    && holds_text a.claim_token_sha256 p.claim_token_sha256))))

abbrev pub replay_phase : Attempt → AttemptPhase → Reply ClaimDecision
replay_phase a claimed = done (replayed a)
replay_phase a running = done (replayed a)
replay_phase a AttemptPhase.terminal = error job_finished

-- The job names this attempt already.
unfoldable pub replay_claim : Redis → ClaimParams → Reply ClaimDecision
replay_claim r p = do
  a ← read (r.attempts p.attempt_id) corrupt_attempt_record corrupt_attempt_record
  need (same_claim a p) idempotency_conflict
  replay_phase a a.phase

abbrev pub is_past_deadline : Job → ℕ → Bool
is_past_deadline job now = ltb 0 job.claim_deadline_ms && leb job.claim_deadline_ms now

unfoldable pub new_claim : Redis → ClaimParams → Job → ℕ → Reply ClaimDecision
new_claim r p job now = do
  need (not p.is_replay_only) not_owner_replay
  need (is_queued job.status) job_already_claimed
  if is_past_deadline job now
      then done expired
      else need (is_missing (r.attempts p.attempt_id)) attempt_id_collision >> done (claims job)

abbrev pub same_job : Job → ClaimParams → Bool
same_job job p =
    job.job_id == p.job_id && (job.workspace_id == p.workspace_id && job.target_id == p.target_id)

-- With the job read and identified.
unfoldable pub claim_of_job : Redis → ClaimParams → Job → ℕ → Reply ClaimDecision
claim_of_job r p job now =
    if holds_text job.latest_attempt_id p.attempt_id
    then replay_claim r p
    else new_claim r p job now

unfoldable pub claim_decision : Redis → ClaimParams → ℕ → Reply ClaimDecision
claim_decision r p now = do
  need (not (is_bad_type (r.jobs p.job_id))) wrongtype
  need (not (is_bad_type (r.queues p.target_id))) wrongtype
  need (not (is_bad_type (r.job_attempts p.job_id))) wrongtype
  need (not (is_bad_type (r.attempts p.attempt_id))) wrongtype
  need (not (is_bad_type (unexpired_fence now (r.fences p.target_id)))) wrongtype
  need (not (is_fenced now (r.fences p.target_id))) target_delete_fenced
  job ← read (r.jobs p.job_id) job_not_found malformed_job_record
  need (same_job job p) job_not_found
  claim_of_job r p job now

abbrev pub new_attempt : ClaimParams → Job → ℕ → Attempt
new_attempt p job now = record {
  schema_version = 1;
  attempt_id = p.attempt_id;
  job_id = job.job_id;
  user_id = job.user_id;
  workspace_id = job.workspace_id;
  target_id = job.target_id;
  device_id = p.device_id;
  target_binding_id = some p.target_binding_id;
  claim_token_sha256 = some p.claim_token_sha256;
  phase = claimed;
  claimed_at_ms = at now;
  started_at_ms = null;
  report = none;
  result = none;
}

abbrev pub activated : ClaimParams → Job → Job
activated p job = record job { status = active; latest_attempt_id = some p.attempt_id }

-- The writes of a claim.
unfoldable pub grant_claim : Redis → ClaimParams → Job → ℕ → Redis
grant_claim r p job now = record r {
  attempts = put p.attempt_id (Slot.value (new_attempt p job now)) r.attempts;
  job_attempts = put p.job_id (zadd now p.attempt_id (r.job_attempts p.job_id)) r.job_attempts;
  jobs = put p.job_id (Slot.value (activated p job)) r.jobs;
  queues = put p.target_id (zrem p.job_id (r.queues p.target_id)) r.queues;
}

-- An expired job leaves the queue and stays as it is.
unfoldable pub drop_expired : Redis → ClaimParams → Redis
drop_expired r p = record r {
  queues = put p.target_id (zrem p.job_id (r.queues p.target_id)) r.queues;
}

pub data ClaimReply : Type 0 where
  granted again : Attempt → ClaimReply

abbrev pub claim_commit : Redis → ClaimParams → ℕ → Reply ClaimDecision → Reply ClaimReply × Redis
claim_commit r p now (error e) = (error e, r)
claim_commit r p now (done (replayed a)) = (done (again a), r)
claim_commit r p now (done expired) = (error job_expired, drop_expired r p)
claim_commit r p now (done (claims job)) =
    (done (granted (new_attempt p job now)), grant_claim r p job now)

unfoldable pub claim_job : Redis → ClaimParams → ℕ → Reply ClaimReply × Redis
claim_job r p now = claim_commit r p now (claim_decision r p now)
