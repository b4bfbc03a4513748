-- ===== src/Jobs/Submit.antt =====
-- createJob of services/server/src/jobs/v2-store.ts: the create script, and the read of the job behind
-- an existing request. The script's replies INCOMPLETE_SUBMISSION and the like, which it never gives,
-- have no case.
pub mod Repeat
use chief_everything_officer.Base.{
  ℕ, String, Bool, true, false, not, Option, none, some, List, ◌==◌, ◌&&◌, if◌then◌else◌,
}
use Prim.Native.String.{◌++◌}
use chief_everything_officer.Base.Redis.{Slot}
use chief_everything_officer.Jobs.Records.{
  Job, JobStatus, preparing, Redis, Reply, done, error, ScriptError, wrongtype,
  target_delete_fenced,
}
use chief_everything_officer.Jobs.Scripts.Create.{CreateDecision, existing, make, create_job}
use chief_everything_officer.Jobs.Machine.Calls.{JobCall, run}

-- requestKeyV2, with the family's prefix left out.
unfoldable pub request_key : String → String → String → String
request_key user_id workspace_id request_id =
    user_id ++ (":" ++ (workspace_id ++ (":" ++ request_id)))

-- The exceptions: an idempotency conflict, a fenced target, and QUEUE_UNAVAILABLE by its causes.
pub data SubmitError : Type 0 where
  conflict fenced incomplete dangling malformed_existing : SubmitError
  unavailable : ScriptError → SubmitError

pub data SubmitReply : Type 0 where
  created : String → String → SubmitReply
  repeated : String → Option String → SubmitReply
  refused : SubmitError → SubmitReply

abbrev pub submit_error : ScriptError → SubmitError
submit_error target_delete_fenced = fenced
submit_error e = unavailable e

abbrev pub is_preparing : JobStatus → Bool
is_preparing preparing = true
is_preparing _ = false

-- The job of the existing request against the new submission.
unfoldable pub match_existing : Job → Job → String → SubmitReply
match_existing old job request_id =
    if old.user_id == job.user_id
      && (old.workspace_id == job.workspace_id && old.request_id == request_id)
    then (if is_preparing old.status
        then refused incomplete
        else if old.request_digest == job.request_digest
        then repeated old.job_id old.stream_entry_id
        else refused conflict)
    else refused conflict

abbrev pub read_existing : Slot Job → Job → String → SubmitReply
read_existing Slot.missing job request_id = refused dangling
read_existing Slot.malformed job request_id = refused malformed_existing
read_existing Slot.wrong_type job request_id = refused (unavailable wrongtype)
read_existing (Slot.value old) job request_id = match_existing old job request_id

abbrev pub submit_reply :
    Reply CreateDecision × Redis → List JobCall → Job → String → String → SubmitReply × Redis
submit_reply (error e, r) others job request_id entry_id = (refused (submit_error e), r)
submit_reply (done make, r) others job request_id entry_id = (created job.job_id entry_id, r)
submit_reply (done (existing id), r) others job request_id entry_id =
    let s = run r others in (read_existing (s.jobs id) job request_id, s)

-- `others` are the calls that come between the script and the read of the existing job.
unfoldable pub submit_job : Redis → Job → String → String → ℕ → List JobCall → SubmitReply × Redis
submit_job r job request_id entry_id now others =
    submit_reply
      (create_job r job (request_key job.user_id job.workspace_id request_id) entry_id now) others
      job request_id entry_id
