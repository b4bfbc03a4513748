-- ===== src/Jobs/Scripts/Create.antt =====
-- V2_CREATE_JOB_SCRIPT of services/server/src/jobs/v2-assignment-script.ts, and createJob of
-- v2-store.ts, which reads the job behind an existing request.
use chief_everything_officer.Base.{ℕ, String, not, none, some, List, [], ◌∷◌, ◌++◌}
use chief_everything_officer.Base.Redis.{Slot, put, zadd, is_bad_type, is_missing}
use chief_everything_officer.Jobs.Records.{
  Job, queued, StreamEntry, Redis, wrongtype, target_delete_fenced, job_id_collision, Reply, done,
  error, ◌>>◌, need,
}
use chief_everything_officer.Jobs.Scripts.{is_fenced, unexpired_fence}

-- A request key holds a plain text, which is never malformed.
-- What the script finds: the job of an existing request, or that a job may be made.
pub data CreateDecision : Type 0 where
  existing : String → CreateDecision
  make : CreateDecision

-- From the fence on: there is no such request yet.
unfoldable pub create_checks : Redis → Job → ℕ → Reply CreateDecision
create_checks r job now = do
  need (not (is_bad_type (unexpired_fence now (r.fences job.target_id)))) wrongtype
  need (not (is_fenced now (r.fences job.target_id))) target_delete_fenced
  need (not (is_bad_type (r.jobs job.job_id))) wrongtype
  need (not (is_bad_type r.stream)) wrongtype
  need (not (is_bad_type (r.queues job.target_id))) wrongtype
  need (is_missing (r.jobs job.job_id)) job_id_collision
  done make

abbrev pub create_request : Slot String → Reply CreateDecision → Reply CreateDecision
create_request Slot.wrong_type otherwise = error wrongtype
create_request (Slot.value job_id) otherwise = done (existing job_id)
create_request _ otherwise = otherwise

unfoldable pub create_decision : Redis → Job → String → ℕ → Reply CreateDecision
create_decision r job request_key now =
    create_request (r.requests request_key) (create_checks r job now)

abbrev pub append_entry : StreamEntry → Slot (List StreamEntry) → Slot (List StreamEntry)
append_entry e (Slot.value es) = Slot.value (es ++ e ∷ [])
append_entry e Slot.missing = Slot.value (e ∷ [])
append_entry e s = s

abbrev pub queued_job : Job → String → Job
queued_job job entry_id = record job {
  status = queued;
  stream_entry_id = some entry_id;
  latest_attempt_id = none;
}

-- The writes of a creation. The `preparing` record that the script writes first is overwritten
-- before it ends, so no one sees it. `entry_id` is the identifier that XADD chooses.
unfoldable pub make_job : Redis → Job → String → String → Redis
make_job r job request_key entry_id = record r {
  requests = put request_key (Slot.value job.job_id) r.requests;
  jobs = put job.job_id (Slot.value (queued_job job entry_id)) r.jobs;
  stream =
      append_entry
        (record {
          entry_id = entry_id;
          job_id = job.job_id;
          user_id = job.user_id;
          workspace_id = job.workspace_id;
          target_id = job.target_id;
          created_at_ms = job.created_at_ms;
        })
        r.stream;
  queues = put job.target_id (zadd job.created_at_ms job.job_id (r.queues job.target_id)) r.queues;
}

unfoldable pub create_job : Redis → Job → String → String → ℕ → Reply CreateDecision × Redis
create_job r job request_key entry_id now = elim (create_decision r job request_key now) [
  | error e ↦ (error e, r)
  | done make ↦ (done make, make_job r job request_key entry_id)
  | done (existing id) ↦ (done (existing id), r)
]
