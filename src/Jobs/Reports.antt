-- ===== src/Jobs/Reports.antt =====
-- Reports of services/server/src/jobs/v2-assignment-script.ts after the first one was accepted.
use chief_everything_officer.Base.{
  ℕ, String, Bool, true, false, Option, none, some, ◌≡◌, refl, ◌∙◌, inl, inr, arith, List, nat_eq,
  eq_refl, holds_text, is_some, if◌then◌else◌,
}
use chief_everything_officer.Base.Redis.{Slot}
use chief_everything_officer.Base.Redis.Laws.{put_self}
use chief_everything_officer.Jobs.Records.{
  Job, Attempt, AttemptPhase, Stamp, null, invalid, at, Report, ReportError, absent, ill_formed,
  failure, Executor, JobResult, StoredReport, Redis, Reply, done, error, report_conflict,
}
use chief_everything_officer.Jobs.Scripts.{is_sound, is_owned}
use chief_everything_officer.Jobs.Scripts.Start.{Caller}
use chief_everything_officer.Jobs.Scripts.Report.{
  ReportDecision, finishes, ReportReply, reported, again, validate_report, same_report, same_flag,
  same_stamp, same_text, same_error, same_executor, finish_checks, report_checks, report_decision,
  finished_attempt, finished_job, report_job,
}
use chief_everything_officer.Jobs.Machine.Calls.{JobCall, run}
use chief_everything_officer.Jobs.Machine.Decisions.{Reply-cases}
use chief_everything_officer.Jobs.History.{run-terminal, run-IsEnded}

-- What an accepted report has been checked for.
pub report-checks :
    (r : Redis) (c : Caller) (rep : Report) {job : Job} {a : Attempt}
    → report_decision r c rep ≡ done (finishes job a)
    → (is_sound a ≡ true)
      × (holds_text job.latest_attempt_id c.attempt_id ≡ true)
      × (is_owned a job c.attempt_id c.device_id c.claim_token_sha256 ≡ true)
      × (validate_report rep ≡ done tt)
unfolding report_decision report_checks finish_checks
report-checks r c rep h = ground arith

-- What an accepted report writes.
pub report-writes :
    (r : Redis) (c : Caller) (rep : Report) (now : ℕ)
    → (report_job r c rep now).0 ≡ done reported
    → (job : Job) × (a : Attempt) × (report_decision r c rep ≡ done (finishes job a))
      × ((report_job r c rep now).1.jobs c.job_id ≡ Slot.value (finished_job job))
      × ((report_job r c rep now).1.attempts c.attempt_id ≡ Slot.value (finished_attempt a rep now))
unfolding report_job
report-writes r c rep now h = elim (Reply-cases (report_decision r c rep)) [
  | inr (x, e) ↦ absurd (ground arith)
  | inl (ReportDecision.replayed, e) ↦ absurd (ground arith)
  | inl (finishes job a, e) ↦ (
    job,
    a,
    e,
    rw (e, report_job) (put_self c.job_id _ r.jobs),
    rw (e, report_job) (put_self c.attempt_id _ r.attempts),
  )
]

-- The reply to a report, by what it says, once another one has been accepted.
unfoldable pub late_reply : Report → Report → Reply (Unit {0}) → Reply ReportReply
late_reply stored rep (error e) = error e
late_reply stored rep (done _) =
    if same_report stored rep then done again else error report_conflict

ended_sound :
    (a : Attempt) (s : StoredReport) (res : Option JobResult)
    → is_sound a ≡ true
    → is_sound (record a { phase = AttemptPhase.terminal; report = some s; result = res }) ≡ true
unfolding is_sound
ended_sound a s res h = ground arith

ended_owned :
    (a : Attempt) (job : Job) (id device token : String) (s : StoredReport) (res : Option JobResult)
    → is_owned
        (record a { phase = AttemptPhase.terminal; report = some s; result = res })
        (finished_job job)
        id
        device
        token
      ≡ is_owned a job id device token
unfolding is_owned
ended_owned a job id device token s res = refl

-- The decision behind `late_reply`.
abbrev late_decision : Report → Report → Reply (Unit {0}) → Reply ReportDecision
late_decision stored rep (error e) = error e
late_decision stored rep (done _) =
    if same_report stored rep then done ReportDecision.replayed else error report_conflict

late-checks :
    (c : Caller) (job : Job) (a : Attempt) (s : StoredReport) (res : Option JobResult)
    (rep : Report)
    → is_sound a ≡ true
    → holds_text job.latest_attempt_id c.attempt_id ≡ true
    → is_owned a job c.attempt_id c.device_id c.claim_token_sha256 ≡ true
    → report_checks c
        (finished_job job)
        (record a { phase = AttemptPhase.terminal; report = some s; result = res })
        rep
      ≡ late_decision s.report rep (validate_report rep)
unfolding report_checks
late-checks c job a s res rep sound linked owned =
    let sound' = ended_sound a s res sound in
    let owned' = ended_owned a job c.attempt_id c.device_id c.claim_token_sha256 s res ∙ owned in
    elim (Reply-cases (validate_report rep)) [
      | inl (u, e) ↦ rw (sound', linked, owned', e)
      | inr (x, e) ↦ rw (sound', linked, owned', e)
    ]

late-decision :
    (r : Redis) (c : Caller) (job : Job) (a : Attempt) (rep : Report)
    → r.jobs c.job_id ≡ Slot.value job
    → r.attempts c.attempt_id ≡ Slot.value a
    → report_decision r c rep ≡ report_checks c job a rep
unfolding report_decision
late-decision r c job a rep h k = rw (h, k)

late-commit :
    (r : Redis) (c : Caller) (stored rep : Report) (now : ℕ)
    → report_decision r c rep ≡ late_decision stored rep (validate_report rep)
    → report_job r c rep now ≡ (late_reply stored rep (validate_report rep), r)
unfolding late_reply report_job
late-commit r c stored rep now h = elim (Reply-cases (validate_report rep)) [
  | inl (u, e) ↦ ground arith
  | inr (x, e) ↦ ground arith
]

-- After a report was accepted, and after any calls on the store, another report of that caller on
-- that attempt changes nothing: it is refused for what is wrong with it, answered as a repeat when it
-- says the same, and refused as a conflict otherwise.
pub report_final :
    (r : Redis) (c : Caller) (rep : Report) (now : ℕ) (cs : List JobCall) (other : Report)
    (later : ℕ)
    → (report_job r c rep now).0 ≡ done reported
    → let s = run (report_job r c rep now).1 cs in
      (report_job s c other later ≡ (late_reply rep other (validate_report other), s))
report_final r c rep now cs other later h =
    let (job, a, e, w, v) = report-writes r c rep now h in
    let (sound, linked, owned, _) = report-checks r c rep e in
    let after = (report_job r c rep now).1 in
    let still = run-terminal after cs c.job_id (finished_job job) w refl in
    let (res, kept) =
      run-IsEnded after cs c.attempt_id (finished_attempt a rep now) refl (a.result, v) in
    late-commit (run after cs) c rep other later (
      late-decision (run after cs) c _ _ other still kept
      ∙ late-checks c job a (record { report = rep; received_at_ms = now }) res other sound linked
          owned)

same_flag_refl : (o : Option Bool) → same_flag o o ≡ true
same_flag_refl none = refl
same_flag_refl (some true) = refl
same_flag_refl (some false) = refl

same_stamp_refl : (s : Stamp) → same_stamp s s ≡ true
same_stamp_refl null = refl
same_stamp_refl invalid = refl
same_stamp_refl (at n) = ground arith

same_text_refl : (o : Option String) → same_text o o ≡ true
same_text_refl none = refl
same_text_refl (some s) = eq_refl s

same_error_refl : (e : ReportError) → same_error e e ≡ true
same_error_refl absent = refl
same_error_refl ill_formed = refl
same_error_refl (failure s c m) = ground (arith, eq_refl s, eq_refl c, eq_refl m)

same_executor_refl : (o : Option Executor) → is_some o ≡ true → same_executor o o ≡ true
same_executor_refl none h = absurd (ground arith)
same_executor_refl (some x) h = ground (arith, eq_refl x.kind, eq_refl x.version)

validate-executor : (rep : Report) → validate_report rep ≡ done tt → is_some rep.executor ≡ true
unfolding validate_report
validate-executor rep h = ground arith

-- A valid report says the same as itself.
same_report_refl : (rep : Report) → validate_report rep ≡ done tt → same_report rep rep ≡ true
unfolding same_report
same_report_refl rep h =
    let version : nat_eq rep.schema_version rep.schema_version ≡ true = ground arith in
    rw (
      version,
      eq_refl rep.execution_status,
      eq_refl rep.business_outcome,
      same_flag_refl rep.task_dispatched,
      same_stamp_refl rep.finished_at_ms,
      same_stamp_refl rep.duration_ms,
      same_text_refl rep.receipt_sha256,
      same_executor_refl rep.executor (validate-executor rep h),
      same_error_refl rep.error,
    )

-- A report that was accepted, sent again after any calls on the store, is answered as a repeat and
-- changes nothing.
pub report_retry :
    (r : Redis) (c : Caller) (rep : Report) (now : ℕ) (cs : List JobCall) (later : ℕ)
    → (report_job r c rep now).0 ≡ done reported
    → let s = run (report_job r c rep now).1 cs in (report_job s c rep later ≡ (done again, s))
unfolding late_reply
report_retry r c rep now cs later h =
    let (job, a, e, _, _) = report-writes r c rep now h in
    let (_, _, _, valid) = report-checks r c rep e in
    report_final r c rep now cs rep later h ∙ rw (valid, same_report_refl rep valid)
