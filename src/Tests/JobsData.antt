-- ===== src/Tests/JobsData.antt =====
-- A small job store: empty, then a created job, a claim, its start and its report.
use chief_everything_officer.Base.{String, none, some, [], ◌∷◌, List, true, false}
use chief_everything_officer.Base.Redis.{Slot}
use chief_everything_officer.Jobs.Records.{
  Job, preparing, at, absent, failure, Report, Redis, JobResult,
}
use chief_everything_officer.Jobs.Scripts.Claim.{ClaimParams}
use chief_everything_officer.Jobs.Scripts.Start.{Caller}
use chief_everything_officer.Jobs.Scripts.Cancel.{CancelParams}
use chief_everything_officer.Jobs.Machine.Calls.{
  JobCall, create_call, claim_call, start_call, report_call,
}

abbrev pub digest : String
digest = "0123456789abcdef0123456789abcdef0123456789abcdef0123456789abcdef"

abbrev pub empty : Redis
empty = record {
  requests = λ k. Slot.missing;
  jobs = λ k. Slot.missing;
  attempts = λ k. Slot.missing;
  queues = λ k. Slot.missing;
  job_attempts = λ k. Slot.missing;
  stream = Slot.missing;
  fences = λ k. Slot.missing;
}

abbrev pub job : Job
job = record {
  job_id = "j1";
  request_id = "r1";
  user_id = "u1";
  workspace_id = "w1";
  target_id = "t1";
  prompt = "write";
  acceptance = "done";
  resource_id = none;
  execution_timeout_seconds = 3600;
  result_target = "none";
  request_digest = digest;
  status = preparing;
  stream_entry_id = none;
  latest_attempt_id = none;
  created_at_ms = 100;
  claim_deadline_ms = 604800100;
  cancel = none;
}

abbrev pub claim : ClaimParams
claim = record {
  job_id = "j1";
  workspace_id = "w1";
  target_id = "t1";
  device_id = "d1";
  target_binding_id = "b1";
  attempt_id = "a1";
  claim_token_sha256 = digest;
  is_replay_only = false;
}

abbrev pub caller : Caller
caller = record { job_id = "j1"; attempt_id = "a1"; device_id = "d1"; claim_token_sha256 = digest }

abbrev pub good_report : Report
good_report = record {
  schema_version = 2;
  execution_status = "COMPLETED";
  business_outcome = "UNVERIFIED";
  task_dispatched = some true;
  finished_at_ms = at 900;
  duration_ms = at 600;
  receipt_sha256 = some digest;
  executor = some (record { kind = "codex"; version = "1" });
  error = absent;
}

abbrev pub bad_report : Report
bad_report = record good_report {
  execution_status = "FAILED";
  error = failure "run" "EXIT" "exit code 1";
}

abbrev pub cancel : CancelParams
cancel = record {
  job_id = "j1";
  expected_attempt_id = "a1";
  target_id = "t1";
  device_id = "d9";
  reason = "stuck";
  receipt_sha256 = digest;
}

abbrev pub delivery : JobResult
delivery = record {
  attempt_id = "a1";
  payload_sha256 = digest;
  resource_id = "res";
  target = "r.md";
  commit = "c0";
  received_at_ms = 0;
}

abbrev pub to_created : List JobCall
to_created = create_call job "q1" "1-0" 100 ∷ []

abbrev pub to_claimed : List JobCall
to_claimed = create_call job "q1" "1-0" 100 ∷ claim_call claim 200 ∷ []

abbrev pub to_running : List JobCall
to_running = create_call job "q1" "1-0" 100 ∷ claim_call claim 200 ∷ start_call caller 300 ∷ []

abbrev pub to_reported : List JobCall
to_reported =
    create_call job "q1" "1-0" 100
    ∷ claim_call claim 200
    ∷ start_call caller 300
    ∷ report_call caller good_report 1000
    ∷ []
