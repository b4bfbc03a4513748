-- ===== src/Jobs/Records.antt =====
-- The Job and Attempt records of services/server/src/jobs/v2-schema.ts as the scripts of
-- v2-assignment-script.ts read them, and the Redis state that they stand in. Keys of different
-- prefixes are different families. A field that a script tests for its type may be `invalid`.
use chief_everything_officer.Base.{ℕ, String, Bool, true, false, Option, List}
use chief_everything_officer.Base.Redis.{Slot, Keys, Zset}

pub data JobStatus : Type 0 where
  preparing queued active terminal : JobStatus

pub data AttemptPhase : Type 0 where
  claimed running terminal : AttemptPhase

-- A JSON field that should be a number: `null` or absent, a number, or of another type.
pub data Stamp : Type 0 where
  null invalid : Stamp
  at : ℕ → Stamp

pub record CancelRecord : Type 0 where
  pub cancelled_at_ms : ℕ
  pub requested_by_device_id : String
  pub reason : String

pub record Job : Type 0 where
  pub job_id : String
  pub request_id : String
  pub user_id : String
  pub workspace_id : String
  pub target_id : String
  pub prompt : String
  pub acceptance : String
  pub resource_id : Option String
  pub execution_timeout_seconds : ℕ
  pub result_target : String
  pub request_digest : String
  pub status : JobStatus
  pub stream_entry_id : Option String
  pub latest_attempt_id : Option String
  pub created_at_ms : ℕ
  pub claim_deadline_ms : ℕ
  pub cancel : Option CancelRecord

-- The `error` of a report: absent, a table with its three texts, or anything else.
pub data ReportError : Type 0 where
  absent ill_formed : ReportError
  failure : String → String → String → ReportError

pub record Executor : Type 0 where
  pub kind : String
  pub version : String

-- A report as the runner sends it; `none` and `invalid` are what the script's type tests refuse.
-- Times are whole numbers, and a negative one counts as `invalid`.
pub record Report : Type 0 where
  pub schema_version : ℕ
  pub execution_status : String
  pub business_outcome : String
  pub task_dispatched : Option Bool
  pub finished_at_ms : Stamp
  pub duration_ms : Stamp
  pub receipt_sha256 : Option String
  pub executor : Option Executor
  pub error : ReportError

pub record StoredReport : Type 0 where
  pub report : Report
  pub received_at_ms : ℕ

pub record JobResult : Type 0 where
  pub attempt_id : String
  pub payload_sha256 : String
  pub resource_id : String
  pub target : String
  pub commit : String
  pub received_at_ms : ℕ

pub record Attempt : Type 0 where
  pub schema_version : ℕ
  pub attempt_id : String
  pub job_id : String
  pub user_id : String
  pub workspace_id : String
  pub target_id : String
  pub device_id : String
  pub target_binding_id : Option String
  pub claim_token_sha256 : Option String
  pub phase : AttemptPhase
  pub claimed_at_ms : Stamp
  pub started_at_ms : Stamp
  pub report : Option StoredReport
  pub result : Option JobResult

pub record StreamEntry : Type 0 where
  pub entry_id : String
  pub job_id : String
  pub user_id : String
  pub workspace_id : String
  pub target_id : String
  pub created_at_ms : ℕ

-- A delete fence `<started_ms>:<token>`, with the time at which its key expires.
pub record Fence : Type 0 where
  pub started_ms : ℕ
  pub token : String
  pub expires_at_ms : ℕ

pub record Redis : Type 0 where
  pub requests : Keys String
  pub jobs : Keys Job
  pub attempts : Keys Attempt
  pub queues : Keys Zset
  pub job_attempts : Keys Zset
  pub stream : Slot (List StreamEntry)
  pub fences : Keys Fence

-- The script's error codes; `wrongtype` is its `error_reply`.
pub data ScriptError : Type 0 where
  wrongtype target_delete_fenced job_id_collision malformed_job_record : ScriptError
  job_not_found corrupt_attempt_record idempotency_conflict job_finished : ScriptError
  not_owner_replay job_already_claimed job_expired attempt_id_collision : ScriptError
  attempt_not_found job_not_active identity_mismatch invalid_attempt_phase : ScriptError
  attempt_mismatch invalid_job_status malformed_report report_conflict : ScriptError
  invalid_report_schema_version invalid_execution_status invalid_business_outcome : ScriptError
  invalid_task_dispatched invalid_report_finished_at invalid_report_duration : ScriptError
  invalid_report_receipt_sha256 invalid_report_executor completed_report_has_error : ScriptError
  invalid_report_error_shape undispatched_report_outcome_invalid : ScriptError
  unverified_outcome_requires_dispatched dispatched_report_requires_running : ScriptError
  cancel_race corrupt_job_record malformed_result stale_result_submission : ScriptError

pub data Reply {ℓ} (A : Type ℓ) : Type ℓ where
  done : A → Reply A
  error : ScriptError → Reply A

infixl 5 ◌>>=◌ ◌>>◌
abbrev pub ◌>>=◌ {ℓ κ} : {A : Type ℓ} {B : Type κ} → Reply A → (A → Reply B) → Reply B
done a >>= f = f a
error e >>= f = error e

abbrev pub ◌>>◌ {ℓ} : {B : Type ℓ} → Reply (Unit {0}) → Reply B → Reply B
m >> k = m >>= λ _. k

-- `if test then return cjson.encode({ error = … }) end`, with the test negated.
abbrev pub need : Bool → ScriptError → Reply (Unit {0})
need true e = done tt
need false e = error e

-- GET and decode: a missing key and a text that does not decode have an error each.
abbrev pub read {ℓ} : {A : Type ℓ} → Slot A → ScriptError → ScriptError → Reply A
read Slot.missing not_there bad = error not_there
read Slot.wrong_type not_there bad = error wrongtype
read Slot.malformed not_there bad = error bad
read (Slot.value a) not_there bad = done a

abbrev pub is_queued : JobStatus → Bool
is_queued queued = true
is_queued _ = false

abbrev pub is_active : JobStatus → Bool
is_active active = true
is_active _ = false

abbrev pub is_terminal : JobStatus → Bool
is_terminal JobStatus.terminal = true
is_terminal _ = false

abbrev pub is_claimed : AttemptPhase → Bool
is_claimed claimed = true
is_claimed _ = false

abbrev pub is_running : AttemptPhase → Bool
is_running running = true
is_running _ = false

abbrev pub is_finished : AttemptPhase → Bool
is_finished AttemptPhase.terminal = true
is_finished _ = false

abbrev pub is_number : Stamp → Bool
is_number (at n) = true
is_number _ = false

abbrev pub is_null : Stamp → Bool
is_null null = true
is_null _ = false
