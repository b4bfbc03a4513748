-- ===== src/Jobs/Progress.antt =====
-- The way of a job that nothing disturbs, by services/server/src/jobs/v2-assignment-script.ts: claim,
-- start, report.
use chief_everything_officer.Base.{ℕ, String, true, some, ◌≡◌, refl, ◌∙◌, arith, eq_refl}
use chief_everything_officer.Base.Redis.{Slot, put}
use chief_everything_officer.Base.Redis.Laws.{put_self}
use chief_everything_officer.Jobs.Records.{
  Job, JobStatus, Attempt, AttemptPhase, at, StoredReport, Report, Redis, done,
}
use chief_everything_officer.Jobs.Scripts.{is_sound, is_owned, is_digest, is_nonempty}
use chief_everything_officer.Jobs.Scripts.Claim.{
  ClaimParams, granted, new_attempt, activated, claim_job, grant_claim,
}
use chief_everything_officer.Jobs.Scripts.Start.{
  Caller, StartDecision, fresh, started, start_checks, start_decision, start_job,
}
use chief_everything_officer.Jobs.Scripts.Report.{
  finishes, reported, finished_attempt, finished_job, validate_report, finish_checks, report_checks,
  report_decision, report_job,
}
use chief_everything_officer.Jobs.Claims.{grant-writes}

-- The caller of a claim.
abbrev pub claimant : ClaimParams → Caller
claimant p = record {
  job_id = p.job_id;
  attempt_id = p.attempt_id;
  device_id = p.device_id;
  claim_token_sha256 = p.claim_token_sha256;
}

new_attempt_sound :
    (p : ClaimParams) (job : Job) (now : ℕ)
    → is_digest (some p.claim_token_sha256) ≡ true
    → is_nonempty (some p.target_binding_id) ≡ true
    → is_sound (new_attempt p job now) ≡ true
unfolding is_sound
new_attempt_sound p job now h k = ground arith

started_sound : (a : Attempt) (now : ℕ) → is_sound a ≡ true → is_sound (started a now) ≡ true
unfolding is_sound
started_sound a now h = ground arith

new_attempt_owned :
    (p : ClaimParams) (job : Job) (now : ℕ)
    → is_owned
        (new_attempt p job now)
        (activated p job)
        p.attempt_id
        p.device_id
        p.claim_token_sha256
      ≡ true
unfolding is_owned
new_attempt_owned p job now = rw (
  eq_refl p.attempt_id,
  eq_refl job.job_id,
  eq_refl job.workspace_id,
  eq_refl job.target_id,
  eq_refl p.device_id,
  eq_refl p.claim_token_sha256,
)

started_owned :
    (a : Attempt) (job : Job) (now : ℕ) (id device token : String)
    → is_owned (started a now) job id device token ≡ is_owned a job id device token
unfolding is_owned
started_owned a job now id device token = refl

start-fresh :
    (r : Redis) (c : Caller) (now : ℕ) (job : Job) (a : Attempt)
    → r.jobs c.job_id ≡ Slot.value job
    → r.attempts c.attempt_id ≡ Slot.value a
    → start_checks c job a ≡ done (StartDecision.starts a)
    → start_job r c now ≡ (
      done (fresh (started a now)),
      record r { attempts = put c.attempt_id (Slot.value (started a now)) r.attempts },
    )
unfolding start_job start_decision
start-fresh r c now job a h k e = rw (h, k, e)

report-fresh :
    (r : Redis) (c : Caller) (rep : Report) (now : ℕ) (job : Job) (a : Attempt)
    → r.jobs c.job_id ≡ Slot.value job
    → r.attempts c.attempt_id ≡ Slot.value a
    → report_checks c job a rep ≡ done (finishes job a)
    → report_job r c rep now ≡ (
      done reported,
      record r {
        attempts = put c.attempt_id (Slot.value (finished_attempt a rep now)) r.attempts;
        jobs = put c.job_id (Slot.value (finished_job job)) r.jobs;
      },
    )
unfolding report_job report_decision
report-fresh r c rep now job a h k e = rw (h, k, e)

first-start :
    (p : ClaimParams) (job : Job) (now : ℕ)
    → is_digest (some p.claim_token_sha256) ≡ true
    → is_nonempty (some p.target_binding_id) ≡ true
    → start_checks (claimant p) (activated p job) (new_attempt p job now)
      ≡ done (StartDecision.starts (new_attempt p job now))
unfolding start_checks
first-start p job now h k =
    rw (new_attempt_sound p job now h k, eq_refl p.attempt_id, new_attempt_owned p job now)

first-report :
    (p : ClaimParams) (job : Job) (now start : ℕ) (rep : Report)
    → is_digest (some p.claim_token_sha256) ≡ true
    → is_nonempty (some p.target_binding_id) ≡ true
    → validate_report rep ≡ done tt
    → report_checks (claimant p) (activated p job) (started (new_attempt p job now) start) rep
      ≡ done (finishes (activated p job) (started (new_attempt p job now) start))
unfolding report_checks finish_checks
first-report p job now start rep h k valid =
    let sound = started_sound _ start (new_attempt_sound p job now h k) in
    let owned =
      started_owned (new_attempt p job now) (activated p job) start p.attempt_id p.device_id
        p.claim_token_sha256
      ∙ new_attempt_owned p job now in
    rw (sound, eq_refl p.attempt_id, owned, valid) (ground arith)

-- An attempt that has ended with a report, received at a time, after its start.
pub record HasEnded (a : Attempt) (rep : Report) (start received : ℕ) : Type 0 where
  pub is_over : a.phase ≡ AttemptPhase.terminal
  pub started_then : a.started_at_ms ≡ at start
  pub stored : StoredReport
  pub has_report : a.report ≡ some stored
  pub same_report : stored.report ≡ rep
  pub received_then : stored.received_at_ms ≡ received

reported-HasEnded :
    (a : Attempt) (rep : Report) (start received : ℕ)
    → HasEnded (finished_attempt (started a start) rep received) rep start received
reported-HasEnded a rep start received = record {
  is_over = refl;
  started_then = refl;
  stored = record { report = rep; received_at_ms = received };
  has_report = refl;
  same_report = refl;
  received_then = refl;
}

-- A granted claim with a token of 64 bytes and a binding, then its start, then a valid report: each
-- step succeeds, and at the end the job is terminal with its attempt, and the attempt is terminal,
-- with that start and that report and the times of both.
pub claim_to_report :
    (r : Redis) (p : ClaimParams) (now start end : ℕ) (a : Attempt) (rep : Report)
    → (claim_job r p now).0 ≡ done (granted a)
    → is_digest (some p.claim_token_sha256) ≡ true
    → is_nonempty (some p.target_binding_id) ≡ true
    → validate_report rep ≡ done tt
    → let claimed = (claim_job r p now).1 in
      let running = (start_job claimed (claimant p) start).1 in
      let s = (report_job running (claimant p) rep end).1 in
      ((start_job claimed (claimant p) start).0 ≡ done (fresh (started a start)))
      × ((report_job running (claimant p) rep end).0 ≡ done reported)
      × ((job : Job) × (s.jobs p.job_id ≡ Slot.value job)
          × (job.status ≡ JobStatus.terminal)
          × (job.latest_attempt_id ≡ some p.attempt_id))
      × ((ended : Attempt) × (s.attempts p.attempt_id ≡ Slot.value ended)
          × HasEnded ended rep start end)
unfolding grant_claim
claim_to_report r p now start end a rep h digest binding valid =
    let (job, _, same, w) = grant-writes r p now h in
    let claimed = (claim_job r p now).1 in
    let has_job : claimed.jobs p.job_id ≡ Slot.value (activated p job) =
      rw w (put_self p.job_id _ r.jobs) in
    let has_attempt : claimed.attempts p.attempt_id ≡ Slot.value (new_attempt p job now) =
      rw w (put_self p.attempt_id _ r.attempts) in
    let go =
      start-fresh claimed (claimant p) start _ _ has_job has_attempt
        (first-start p job now digest binding) in
    let active_attempt = started (new_attempt p job now) start in
    let running_state = record claimed {
      attempts = put p.attempt_id (Slot.value active_attempt) claimed.attempts;
    } in
    let finish =
      report-fresh running_state (claimant p) rep end _ _ has_job
        (put_self p.attempt_id _ claimed.attempts)
        (first-report p job now start rep digest binding valid) in
    rw (same, go, finish)
      (
        refl,
        refl,
        (finished_job (activated p job), put_self p.job_id _ running_state.jobs, refl, refl),
        (
          finished_attempt active_attempt rep end,
          put_self p.attempt_id _ running_state.attempts,
          reported-HasEnded (new_attempt p job now) rep start end,
        ),
      )
