-- ===== src/Jobs/Machine/Fences.antt =====
-- The calls that leave every delete fence as it is.
use chief_everything_officer.Base.{ℕ, String, ◌≡◌, refl, inl, inr, List, [], ◌∷◌}
use chief_everything_officer.Jobs.Records.{Job, Redis, Report, JobResult}
use chief_everything_officer.Jobs.Scripts.Create.{
  make, existing, create_decision, create_job, make_job,
}
use chief_everything_officer.Jobs.Scripts.Claim.{
  ClaimParams, replayed, expired, claims, claim_decision, claim_job, grant_claim, drop_expired,
}
use chief_everything_officer.Jobs.Scripts.Start.{Caller, StartDecision, start_decision, start_job}
use chief_everything_officer.Jobs.Scripts.Report.{
  ReportDecision, finishes, report_decision, report_job,
}
use chief_everything_officer.Jobs.Scripts.Cancel.{
  CancelParams, already_cancelled, already_terminal, cancels_queued, cancels_active,
  cancel_decision, cancel_job,
}
use chief_everything_officer.Jobs.Scripts.Record.{
  RecordDecision, record_decision, record_job_result,
}
use chief_everything_officer.Jobs.Scripts.Queue.{prune_target_queue}
use chief_everything_officer.Jobs.Machine.Decisions.{Reply-cases}

pub create-fences :
    (r : Redis) (job : Job) (request_key entry_id : String) (now : ℕ)
    → (create_job r job request_key entry_id now).1.fences ≡ r.fences
unfolding create_job make_job
create-fences r job request_key entry_id now =
    elim (Reply-cases (create_decision r job request_key now)) [
      | inr (x, e) ↦ rw (e, create_job)
      | inl (existing id, e) ↦ rw (e, create_job)
      | inl (make, e) ↦ rw (e, create_job)
    ]

pub claim-fences : (r : Redis) (p : ClaimParams) (now : ℕ) → (claim_job r p now).1.fences ≡ r.fences
unfolding claim_job grant_claim drop_expired
claim-fences r p now = elim (Reply-cases (claim_decision r p now)) [
  | inr (x, e) ↦ rw (e, claim_job)
  | inl (replayed a, e) ↦ rw (e, claim_job)
  | inl (expired, e) ↦ rw (e, claim_job)
  | inl (claims job, e) ↦ rw (e, claim_job)
]

pub start-fences : (r : Redis) (c : Caller) (now : ℕ) → (start_job r c now).1.fences ≡ r.fences
unfolding start_job
start-fences r c now = elim (Reply-cases (start_decision r c)) [
  | inr (x, e) ↦ rw (e, start_job)
  | inl (StartDecision.replayed a, e) ↦ rw (e, start_job)
  | inl (StartDecision.starts a, e) ↦ rw (e, start_job)
]

pub report-fences :
    (r : Redis) (c : Caller) (rep : Report) (now : ℕ) → (report_job r c rep now).1.fences ≡ r.fences
unfolding report_job
report-fences r c rep now = elim (Reply-cases (report_decision r c rep)) [
  | inr (x, e) ↦ rw (e, report_job)
  | inl (ReportDecision.replayed, e) ↦ rw (e, report_job)
  | inl (finishes job a, e) ↦ rw (e, report_job)
]

pub cancel-fences :
    (r : Redis) (p : CancelParams) (now : ℕ) → (cancel_job r p now).1.fences ≡ r.fences
unfolding cancel_job
cancel-fences r p now = elim (Reply-cases (cancel_decision r p now)) [
  | inr (x, e) ↦ rw (e, cancel_job)
  | inl (already_cancelled, e) ↦ rw (e, cancel_job)
  | inl (already_terminal, e) ↦ rw (e, cancel_job)
  | inl (cancels_queued job, e) ↦ rw (e, cancel_job)
  | inl (cancels_active job a rep, e) ↦ rw (e, cancel_job)
]

pub record-fences :
    (r : Redis) (c : Caller) (res : JobResult) (mode : String) (now : ℕ)
    → (record_job_result r c res mode now).1.fences ≡ r.fences
unfolding record_job_result
record-fences r c res mode now = elim (Reply-cases (record_decision r c res mode)) [
  | inr (x, e) ↦ rw (e, record_job_result)
  | inl (RecordDecision.replayed old, e) ↦ rw (e, record_job_result)
  | inl (RecordDecision.records a, e) ↦ rw (e, record_job_result)
]

pub prune-fences :
    (r : Redis) (target : String) (ids : List String)
    → (prune_target_queue r target ids).1.fences ≡ r.fences
unfolding prune_target_queue
prune-fences r target [] = refl
prune-fences r target (id ∷ ids) = refl
