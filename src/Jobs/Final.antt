-- ===== src/Jobs/Final.antt =====
-- A job that has ended, over any calls on the store of services/server/src/jobs/v2-store.ts.
use chief_everything_officer.Base.{
  ℕ, String, Bool, true, false, some, ◌≡◌, refl, inl, inr, arith, ◌==◌, ◌||◌, List, eq_iff,
}
use chief_everything_officer.Base.Redis.{Slot}
use chief_everything_officer.Base.Redis.Laws.{put_self}
use chief_everything_officer.Jobs.Records.{
  Job, JobStatus, CancelRecord, Attempt, Report, Redis, done, is_queued, is_active, is_terminal,
}
use chief_everything_officer.Jobs.Scripts.Claim.{
  ClaimParams, replayed, expired, claims, claim_decision, claim_job, claim_of_job, replay_claim,
  new_claim,
}
use chief_everything_officer.Jobs.Scripts.Start.{
  Caller, StartDecision, start_decision, start_checks, start_job,
}
use chief_everything_officer.Jobs.Scripts.Report.{
  ReportDecision, finishes, report_decision, report_job,
}
use chief_everything_officer.Jobs.Scripts.Cancel.{
  CancelParams, cancelled, already_cancelled, already_terminal, cancels_queued, cancels_active,
  cancelled_job, cancel_decision, cancel_job,
}
use chief_everything_officer.Jobs.Machine.Calls.{
  JobCall, claim_call, start_call, report_call, cancel_call, step, run,
}
use chief_everything_officer.Jobs.Machine.Decisions.{
  Reply-cases, claim-claims, claim-reads, report-finishes, cancel-queued, cancel-active,
}
use chief_everything_officer.Jobs.History.{run-terminal}

-- The calls that claim, start, report or cancel the job.
abbrev pub moves_job : String → JobCall → Bool
moves_job k (claim_call p now) = p.job_id == k
moves_job k (start_call c now) = c.job_id == k
moves_job k (report_call c rep now) = c.job_id == k
moves_job k (cancel_call p now) = p.job_id == k
moves_job k _ = false

new_claim-expired :
    (r : Redis) (p : ClaimParams) (job : Job) (now : ℕ)
    → new_claim r p job now ≡ done expired
    → is_queued job.status ≡ true
unfolding new_claim
new_claim-expired r p job now h = ground arith

replay_claim-ne-expired : (r : Redis) (p : ClaimParams) → replay_claim r p ≡ done expired → ⊥
unfolding replay_claim
replay_claim-ne-expired r p h = ground arith

claim-expired :
    (r : Redis) (p : ClaimParams) (now : ℕ) (job : Job)
    → r.jobs p.job_id ≡ Slot.value job
    → claim_decision r p now ≡ done expired
    → is_queued job.status ≡ true
unfolding claim_of_job
claim-expired r p now job there h =
    let (j, e, k) = claim-reads r p now h in
    ground (arith, new_claim-expired r p j now, replay_claim-ne-expired r p)

start-active :
    (r : Redis) (c : Caller) (job : Job) {a : Attempt}
    → r.jobs c.job_id ≡ Slot.value job
    → start_decision r c ≡ done (StartDecision.starts a)
    → is_active job.status ≡ true
unfolding start_decision start_checks
start-active r c job there h = ground arith

claim-terminal :
    (r : Redis) (p : ClaimParams) (now : ℕ) (job : Job)
    → r.jobs p.job_id ≡ Slot.value job
    → is_terminal job.status ≡ true
    → (claim_job r p now).1 ≡ r
unfolding claim_job
claim-terminal r p now job h t = elim (Reply-cases (claim_decision r p now)) [
  | inr (x, e) ↦ rw (e, claim_job)
  | inl (replayed b, e) ↦ rw (e, claim_job)
  | inl (expired, e) ↦ absurd (ground (arith, claim-expired r p now job h e))
  | inl (claims j, e) ↦ absurd (ground (arith, claim-claims r p now e))
]

start-terminal :
    (r : Redis) (c : Caller) (now : ℕ) (job : Job)
    → r.jobs c.job_id ≡ Slot.value job
    → is_terminal job.status ≡ true
    → (start_job r c now).1 ≡ r
unfolding start_job
start-terminal r c now job h t = elim (Reply-cases (start_decision r c)) [
  | inr (x, e) ↦ rw (e, start_job)
  | inl (StartDecision.replayed a, e) ↦ rw (e, start_job)
  | inl (StartDecision.starts a, e) ↦ absurd (ground (arith, start-active r c job h e))
]

report-terminal :
    (r : Redis) (c : Caller) (rep : Report) (now : ℕ) (job : Job)
    → r.jobs c.job_id ≡ Slot.value job
    → is_terminal job.status ≡ true
    → (report_job r c rep now).1 ≡ r
unfolding report_job
report-terminal r c rep now job h t = elim (Reply-cases (report_decision r c rep)) [
  | inr (x, e) ↦ rw (e, report_job)
  | inl (ReportDecision.replayed, e) ↦ rw (e, report_job)
  | inl (finishes j a, e) ↦ absurd (ground (arith, report-finishes r c rep e))
]

cancel-terminal :
    (r : Redis) (p : CancelParams) (now : ℕ) (job : Job)
    → r.jobs p.job_id ≡ Slot.value job
    → is_terminal job.status ≡ true
    → (cancel_job r p now).1 ≡ r
unfolding cancel_job
cancel-terminal r p now job h t = elim (Reply-cases (cancel_decision r p now)) [
  | inr (x, e) ↦ rw (e, cancel_job)
  | inl (already_cancelled, e) ↦ rw (e, cancel_job)
  | inl (already_terminal, e) ↦ rw (e, cancel_job)
  | inl (cancels_queued j, e) ↦ absurd (ground (arith, cancel-queued r p now e))
  | inl (cancels_active j a rep, e) ↦ absurd (ground (arith, cancel-active r p now e))
]

-- A call that would move a terminal job changes nothing in the store.
step-terminal :
    (r : Redis) (c : JobCall) (k : String) (job : Job)
    → r.jobs k ≡ Slot.value job
    → is_terminal job.status ≡ true
    → moves_job k c ≡ true
    → step r c ≡ r
unfolding step
step-terminal r (claim_call p now) k job h t m =
    claim-terminal r p now job (rw ((eq_iff p.job_id k).0 m) h) t
step-terminal r (start_call c now) k job h t m =
    start-terminal r c now job (rw ((eq_iff c.job_id k).0 m) h) t
step-terminal r (report_call c rep now) k job h t m =
    report-terminal r c rep now job (rw ((eq_iff c.job_id k).0 m) h) t
step-terminal r (cancel_call p now) k job h t m =
    cancel-terminal r p now job (rw ((eq_iff p.job_id k).0 m) h) t
step-terminal r _ k job h t m = absurd (ground arith)

-- After any calls on the store, the record of a terminal job is still the same, and a claim, start,
-- report or cancellation of it changes nothing in the store.
pub terminal_job_is_final :
    (r : Redis) (cs : List JobCall) (k : String) (job : Job) (c : JobCall)
    → r.jobs k ≡ Slot.value job
    → is_terminal job.status ≡ true
    → moves_job k c ≡ true
    → ((run r cs).jobs k ≡ Slot.value job) × (step (run r cs) c ≡ run r cs)
terminal_job_is_final r cs k job c h t m =
    let still = run-terminal r cs k job h t in (still, step-terminal (run r cs) c k job still t m)

-- The job of before a cancellation, live then and terminal now, with the cancellation's device,
-- time and reason, and still on its target and with its attempt.
pub record WasCancelled (p : CancelParams) (now : ℕ) (before after : Job) : Type 0 where
  pub was_live : (is_queued before.status || is_active before.status) ≡ true
  pub is_over : after.status ≡ JobStatus.terminal
  pub cancel_record : CancelRecord
  pub recorded : after.cancel ≡ some cancel_record
  pub by_device : cancel_record.requested_by_device_id ≡ p.device_id
  pub at_time : cancel_record.cancelled_at_ms ≡ now
  pub for_reason : cancel_record.reason ≡ p.reason
  pub same_id : after.job_id ≡ before.job_id
  pub same_target : after.target_id ≡ before.target_id
  pub same_attempt : after.latest_attempt_id ≡ before.latest_attempt_id

cancelled_job-WasCancelled :
    (p : CancelParams) (now : ℕ) (job : Job)
    → (is_queued job.status || is_active job.status) ≡ true
    → WasCancelled p now job (cancelled_job p now job)
cancelled_job-WasCancelled p now job live = record {
  was_live = live;
  is_over = refl;
  cancel_record = record {
    cancelled_at_ms = now;
    requested_by_device_id = p.device_id;
    reason = p.reason;
  };
  recorded = refl;
  by_device = refl;
  at_time = refl;
  for_reason = refl;
  same_id = refl;
  same_target = refl;
  same_attempt = refl;
}

-- What a cancellation writes on the job.
cancel-writes :
    (r : Redis) (p : CancelParams) (now : ℕ)
    → (cancel_job r p now).0 ≡ done cancelled
    → (job : Job) × ((is_queued job.status || is_active job.status) ≡ true)
      × (r.jobs p.job_id ≡ Slot.value job)
      × ((cancel_job r p now).1.jobs p.job_id ≡ Slot.value (cancelled_job p now job))
unfolding cancel_job
cancel-writes r p now h = elim (Reply-cases (cancel_decision r p now)) [
  | inr (x, e) ↦ absurd (ground arith)
  | inl (already_cancelled, e) ↦ absurd (ground arith)
  | inl (already_terminal, e) ↦ absurd (ground arith)
  | inl (cancels_queued job, e) ↦
      let (there, free) = cancel-queued r p now e in
      (job, ground arith, there, rw (e, cancel_job) (put_self p.job_id _ r.jobs))
  | inl (cancels_active job a rep, e) ↦
      let (there, live, _, _) = cancel-active r p now e in
      (job, ground arith, there, rw (e, cancel_job) (put_self p.job_id _ r.jobs))
]

-- A successful cancellation of a job found it queued or active. After it and any further calls on the
-- store the job is terminal, with a cancel record that has the device, the time and the reason of the
-- cancellation, and with the identifier, target and attempt of before; and a claim, start, report or
-- cancellation of it, in particular a late report, changes nothing.
pub cancel_wins :
    (r : Redis) (p : CancelParams) (now : ℕ) (cs : List JobCall) (c : JobCall)
    → (cancel_job r p now).0 ≡ done cancelled
    → moves_job p.job_id c ≡ true
    → let s = run (cancel_job r p now).1 cs in
      ((before : Job) × (after : Job) × (r.jobs p.job_id ≡ Slot.value before)
        × (s.jobs p.job_id ≡ Slot.value after)
        × WasCancelled p now before after)
      × (step s c ≡ s)
cancel_wins r p now cs c h m =
    let (job, free, there, w) = cancel-writes r p now h in
    let (still, same) =
      terminal_job_is_final (cancel_job r p now).1 cs p.job_id (cancelled_job p now job) c w refl
        m in
    ((job, cancelled_job p now job, there, still, cancelled_job-WasCancelled p now job free), same)
