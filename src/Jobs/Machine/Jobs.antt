-- ===== src/Jobs/Machine/Jobs.antt =====
-- The moves of the job machine that each call makes at a key.
use chief_everything_officer.Base.{ℕ, String, ◌≡◌, refl, inl, inr, arith, List, [], ◌∷◌}
use chief_everything_officer.Base.Redis.{Slot, put}
use chief_everything_officer.Base.Redis.Laws.{put-cases}
use chief_everything_officer.Jobs.Records.{Job, Redis, Report, JobResult}
use chief_everything_officer.Jobs.Scripts.Create.{
  make, existing, create_decision, make_job, create_job, queued_job,
}
use chief_everything_officer.Jobs.Scripts.Claim.{
  ClaimParams, replayed, expired, claims, claim_decision, claim_job, grant_claim, drop_expired,
}
use chief_everything_officer.Jobs.Scripts.Start.{Caller, StartDecision, start_decision, start_job}
use chief_everything_officer.Jobs.Scripts.Report.{
  ReportDecision, finishes, report_decision, report_job,
}
use chief_everything_officer.Jobs.Scripts.Cancel.{
  CancelParams, already_cancelled, already_terminal, cancels_queued, cancels_active,
  cancel_decision, cancel_job,
}
use chief_everything_officer.Jobs.Scripts.Record.{
  RecordDecision, record_decision, record_job_result,
}
use chief_everything_officer.Jobs.Scripts.Queue.{prune_target_queue}
use chief_everything_officer.Jobs.Scripts.Fences.{
  acquire_fence, takeover_fence, touch_fence, release_delete,
}
use chief_everything_officer.Jobs.Machine.{JobMove}
use chief_everything_officer.Jobs.Machine.Calls.{
  JobCall, create_call, claim_call, start_call, report_call, cancel_call, record_call, acquire_call,
  takeover_call, touch_call, release_call, prune_call, step,
}
use chief_everything_officer.Jobs.Machine.Decisions.{
  Reply-cases, create-make, claim-claims, report-finishes, cancel-queued, cancel-active,
}

-- A write at one key is a move there, and keeps every other key.
put-JobMove :
    (jobs : String → Slot Job) (key k : String) (v : Slot Job)
    → JobMove (jobs key) v
    → JobMove (jobs k) (put key v jobs k)
put-JobMove jobs key k v m = elim (put-cases key k v jobs) [
  | inl e ↦ JobMove.keeps e
  | inr (same, e) ↦ rw (e, same) m
]

create-JobMove :
    (r : Redis) (job : Job) (request_key entry_id : String) (now : ℕ) (k : String)
    → JobMove (r.jobs k) ((create_job r job request_key entry_id now).1.jobs k)
unfolding create_job make_job
create-JobMove r job request_key entry_id now k =
    elim (Reply-cases (create_decision r job request_key now)) [
      | inr (x, e) ↦ rw (e, create_job) (JobMove.keeps refl)
      | inl (existing id, e) ↦ rw (e, create_job) (JobMove.keeps refl)
      | inl (make, e) ↦
          rw (e, create_job)
            (put-JobMove r.jobs job.job_id k _ (
              JobMove.creates (queued_job job entry_id) (create-make r job request_key now e) refl
                refl refl))
    ]

claim-JobMove :
    (r : Redis) (p : ClaimParams) (now : ℕ) (k : String)
    → JobMove (r.jobs k) ((claim_job r p now).1.jobs k)
unfolding claim_job grant_claim drop_expired
claim-JobMove r p now k = elim (Reply-cases (claim_decision r p now)) [
  | inr (x, e) ↦ rw (e, claim_job) (JobMove.keeps refl)
  | inl (replayed a, e) ↦ rw (e, claim_job) (JobMove.keeps refl)
  | inl (expired, e) ↦ rw (e, claim_job) (JobMove.keeps refl)
  | inl (claims job, e) ↦
      let (there, free, _) = claim-claims r p now e in
      rw (e, claim_job)
        (put-JobMove r.jobs p.job_id k _ (JobMove.claims job p.attempt_id there free refl))
]

report-JobMove :
    (r : Redis) (c : Caller) (rep : Report) (now : ℕ) (k : String)
    → JobMove (r.jobs k) ((report_job r c rep now).1.jobs k)
unfolding report_job
report-JobMove r c rep now k = elim (Reply-cases (report_decision r c rep)) [
  | inr (x, e) ↦ rw (e, report_job) (JobMove.keeps refl)
  | inl (ReportDecision.replayed, e) ↦ rw (e, report_job) (JobMove.keeps refl)
  | inl (finishes job a, e) ↦
      let (there, live, _, _) = report-finishes r c rep e in
      rw (e, report_job) (put-JobMove r.jobs c.job_id k _ (JobMove.finishes job there live refl))
]

cancel-JobMove :
    (r : Redis) (p : CancelParams) (now : ℕ) (k : String)
    → JobMove (r.jobs k) ((cancel_job r p now).1.jobs k)
unfolding cancel_job
cancel-JobMove r p now k = elim (Reply-cases (cancel_decision r p now)) [
  | inr (x, e) ↦ rw (e, cancel_job) (JobMove.keeps refl)
  | inl (already_cancelled, e) ↦ rw (e, cancel_job) (JobMove.keeps refl)
  | inl (already_terminal, e) ↦ rw (e, cancel_job) (JobMove.keeps refl)
  | inl (cancels_queued job, e) ↦
      let (there, free) = cancel-queued r p now e in
      rw (e, cancel_job)
        (put-JobMove r.jobs p.job_id k _ (JobMove.cancels job _ there (ground arith) refl))
  | inl (cancels_active job a rep, e) ↦
      let (there, live, _, _) = cancel-active r p now e in
      rw (e, cancel_job)
        (put-JobMove r.jobs p.job_id k _ (JobMove.cancels job _ there (ground arith) refl))
]

pub start-jobs : (r : Redis) (c : Caller) (now : ℕ) → (start_job r c now).1.jobs ≡ r.jobs
unfolding start_job
start-jobs r c now = elim (Reply-cases (start_decision r c)) [
  | inr (x, e) ↦ rw (e, start_job)
  | inl (StartDecision.replayed a, e) ↦ rw (e, start_job)
  | inl (StartDecision.starts a, e) ↦ rw (e, start_job)
]

pub record-jobs :
    (r : Redis) (c : Caller) (res : JobResult) (mode : String) (now : ℕ)
    → (record_job_result r c res mode now).1.jobs ≡ r.jobs
unfolding record_job_result
record-jobs r c res mode now = elim (Reply-cases (record_decision r c res mode)) [
  | inr (x, e) ↦ rw (e, record_job_result)
  | inl (RecordDecision.replayed a, e) ↦ rw (e, record_job_result)
  | inl (RecordDecision.records a, e) ↦ rw (e, record_job_result)
]

pub acquire-jobs :
    (r : Redis) (target token : String) (clock now : ℕ)
    → (acquire_fence r target token clock now).1.jobs ≡ r.jobs
unfolding acquire_fence
acquire-jobs r target token clock now = ground arith

pub takeover-jobs :
    (r : Redis) (target token : String) (clock now : ℕ)
    → (takeover_fence r target token clock now).1.jobs ≡ r.jobs
unfolding takeover_fence
takeover-jobs r target token clock now = ground arith

pub touch-jobs :
    (r : Redis) (target token : String) (now : ℕ) → (touch_fence r target token now).1.jobs ≡ r.jobs
unfolding touch_fence
touch-jobs r target token now = ground arith

pub prune-jobs :
    (r : Redis) (target : String) (ids : List String)
    → (prune_target_queue r target ids).1.jobs ≡ r.jobs
unfolding prune_target_queue
prune-jobs r target [] = refl
prune-jobs r target (id ∷ ids) = refl

-- Each call on the store keeps the job at a key, makes it where there was none, claims it when it is
-- queued, ends it when it is active, or cancels it when it is queued or active.
pub step-JobMove : (r : Redis) (c : JobCall) (k : String) → JobMove (r.jobs k) ((step r c).jobs k)
unfolding step
step-JobMove r (create_call job request_key entry_id now) k =
    create-JobMove r job request_key entry_id now k
step-JobMove r (claim_call p now) k = claim-JobMove r p now k
step-JobMove r (start_call c now) k = rw (start-jobs r c now) (JobMove.keeps refl)
step-JobMove r (report_call c rep now) k = report-JobMove r c rep now k
step-JobMove r (cancel_call p now) k = cancel-JobMove r p now k
step-JobMove r (record_call c res mode now) k =
    rw (record-jobs r c res mode now) (JobMove.keeps refl)
step-JobMove r (acquire_call target token clock now) k =
    rw (acquire-jobs r target token clock now) (JobMove.keeps refl)
step-JobMove r (takeover_call target token clock now) k =
    rw (takeover-jobs r target token clock now) (JobMove.keeps refl)
step-JobMove r (touch_call target token now) k =
    rw (touch-jobs r target token now) (JobMove.keeps refl)
step-JobMove r (release_call target) k = unfold release_delete in JobMove.keeps refl
step-JobMove r (prune_call target ids) k = rw (prune-jobs r target ids) (JobMove.keeps refl)
