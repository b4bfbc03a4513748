-- ===== src/Jobs/Machine/Decisions.antt =====
-- What each script's decision to write says of the records that it read.
use chief_everything_officer.Base.{ℕ, String, true, ◌≡◌, refl, ◌⊎◌, inl, inr, arith, ◌||◌}
use chief_everything_officer.Base.Redis.{Slot}
use chief_everything_officer.Base.Redis.Laws.{Slot-cases}
use chief_everything_officer.Jobs.Records.{
  Job, Attempt, Redis, Reply, done, error, ScriptError, Report, JobResult, is_queued, is_active,
  is_claimed, is_running,
}
use chief_everything_officer.Jobs.Scripts.Create.{make, create_decision, create_checks}
use chief_everything_officer.Jobs.Scripts.Claim.{
  ClaimParams, ClaimDecision, claims, claim_decision, claim_of_job, new_claim, replay_claim,
}
use chief_everything_officer.Jobs.Scripts.Start.{Caller, starts, start_decision, start_checks}
use chief_everything_officer.Jobs.Scripts.Report.{
  finishes, report_decision, report_checks, finish_checks,
}
use chief_everything_officer.Jobs.Scripts.Cancel.{
  CancelParams, attempt_key, cancels_queued, cancels_active, cancel_decision, cancel_active,
  cancel_terminal,
}
use chief_everything_officer.Jobs.Scripts.Record.{records, record_decision, record_checks}

-- To split on a computed reply and keep the equation.
pub Reply-cases {ℓ} :
    {A : Type ℓ} (m : Reply A) → ((a : A) × (m ≡ done a)) ⊎ ((e : ScriptError) × (m ≡ error e))
Reply-cases (done a) = inl (a, refl)
Reply-cases (error e) = inr (e, refl)

pub create-make :
    (r : Redis) (job : Job) (request_key : String) (now : ℕ)
    → create_decision r job request_key now ≡ done make
    → r.jobs job.job_id ≡ Slot.missing
unfolding create_decision create_checks
create-make r job request_key now h = ground arith

-- A decided claim has read its job.
pub claim-reads :
    (r : Redis) (p : ClaimParams) (now : ℕ) {d : ClaimDecision}
    → claim_decision r p now ≡ done d
    → (job : Job) × (r.jobs p.job_id ≡ Slot.value job) × (claim_of_job r p job now ≡ done d)
unfolding claim_decision
claim-reads r p now {d} h = elim (Slot-cases (r.jobs p.job_id)) [
  | inl (job, e) ↦ (job, e, ground arith)
  | inr e ↦ absurd (ground arith)
]

new_claim-claims :
    (r : Redis) (p : ClaimParams) (job : Job) (now : ℕ) {job' : Job}
    → new_claim r p job now ≡ done (claims job')
    → (job' ≡ job) × (is_queued job.status ≡ true) × (r.attempts p.attempt_id ≡ Slot.missing)
unfolding new_claim
new_claim-claims r p job now h = ground arith

replay_claim-ne-claims :
    (r : Redis) (p : ClaimParams) (job : Job) → replay_claim r p ≡ done (claims job) → ⊥
unfolding replay_claim
replay_claim-ne-claims r p job h = ground arith

claim_of_job-claims :
    (r : Redis) (p : ClaimParams) (job : Job) (now : ℕ) {job' : Job}
    → claim_of_job r p job now ≡ done (claims job')
    → new_claim r p job now ≡ done (claims job')
unfolding claim_of_job
claim_of_job-claims r p job now {job'} h = ground (arith, replay_claim-ne-claims r p job')

-- A claim is granted on a queued job, under an attempt key that is free.
pub claim-claims :
    (r : Redis) (p : ClaimParams) (now : ℕ) {job : Job}
    → claim_decision r p now ≡ done (claims job)
    → (r.jobs p.job_id ≡ Slot.value job)
      × (is_queued job.status ≡ true)
      × (r.attempts p.attempt_id ≡ Slot.missing)
claim-claims r p now {job} h =
    let (read_job, e, k) = claim-reads r p now h in
    ground (arith, new_claim-claims r p read_job now (claim_of_job-claims r p read_job now k))

-- A start is of a claimed attempt.
pub start-starts :
    (r : Redis) (c : Caller) {a : Attempt}
    → start_decision r c ≡ done (starts a)
    → (r.attempts c.attempt_id ≡ Slot.value a) × (is_claimed a.phase ≡ true)
unfolding start_decision start_checks
start-starts r c h = ground arith

-- A report ends an active job and its claimed or running attempt.
pub report-finishes :
    (r : Redis) (c : Caller) (rep : Report) {job : Job} {a : Attempt}
    → report_decision r c rep ≡ done (finishes job a)
    → (r.jobs c.job_id ≡ Slot.value job)
      × (is_active job.status ≡ true)
      × (r.attempts c.attempt_id ≡ Slot.value a)
      × ((is_claimed a.phase || is_running a.phase) ≡ true)
unfolding report_decision report_checks finish_checks
report-finishes r c rep h = ground arith

pub cancel-queued :
    (r : Redis) (p : CancelParams) (now : ℕ) {job : Job}
    → cancel_decision r p now ≡ done (cancels_queued job)
    → (r.jobs p.job_id ≡ Slot.value job) × (is_queued job.status ≡ true)
unfolding cancel_decision cancel_active cancel_terminal
cancel-queued r p now h = ground arith

pub cancel-active :
    (r : Redis) (p : CancelParams) (now : ℕ) {job : Job} {a : Attempt} {rep : Report}
    → cancel_decision r p now ≡ done (cancels_active job a rep)
    → (r.jobs p.job_id ≡ Slot.value job)
      × (is_active job.status ≡ true)
      × (r.attempts (attempt_key p) ≡ Slot.value a)
      × ((is_claimed a.phase || is_running a.phase) ≡ true)
unfolding cancel_decision cancel_active cancel_terminal
cancel-active r p now h = ground arith

pub record-records :
    (r : Redis) (c : Caller) (res : JobResult) (mode : String) {a : Attempt}
    → record_decision r c res mode ≡ done (records a)
    → r.attempts c.attempt_id ≡ Slot.value a
unfolding record_decision record_checks
record-records r c res mode h = ground arith
