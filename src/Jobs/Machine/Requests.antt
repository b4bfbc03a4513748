-- ===== src/Jobs/Machine/Requests.antt =====
-- The request keys under the calls on the store.
use chief_everything_officer.Base.Redis.{Slot}
use chief_everything_officer.Base.Redis.Laws.{put-cases}
use chief_everything_officer.Base.{arith, sym, ◌∙◌, ℕ, String, ◌≡◌, refl, inl, inr, List, [], ◌∷◌}
use chief_everything_officer.Jobs.Records.{Job, Redis, done, Report, JobResult}
use chief_everything_officer.Jobs.Scripts.Create.{
  make, existing, create_decision, create_job, make_job,
}
use chief_everything_officer.Jobs.Scripts.Claim.{
  ClaimParams, replayed, expired, claims, claim_decision, claim_job, grant_claim, drop_expired,
}
use chief_everything_officer.Jobs.Scripts.Start.{Caller, StartDecision, start_decision, start_job}
use chief_everything_officer.Jobs.Scripts.Report.{
  ReportDecision, finishes, report_decision, report_job,
}
use chief_everything_officer.Jobs.Scripts.Cancel.{
  CancelParams, already_cancelled, already_terminal, cancels_queued, cancels_active,
  cancel_decision, cancel_job,
}
use chief_everything_officer.Jobs.Scripts.Record.{
  RecordDecision, record_decision, record_job_result,
}
use chief_everything_officer.Jobs.Scripts.Queue.{prune_target_queue}
use chief_everything_officer.Jobs.Scripts.Fences.{
  acquire_fence, takeover_fence, touch_fence, release_delete,
}
use chief_everything_officer.Jobs.Machine.Calls.{
  JobCall, create_call, claim_call, start_call, report_call, cancel_call, record_call, acquire_call,
  takeover_call, touch_call, release_call, prune_call, step, run,
}
use chief_everything_officer.Jobs.Machine.Decisions.{Reply-cases}

claim-requests :
    (r : Redis) (p : ClaimParams) (now : ℕ) → (claim_job r p now).1.requests ≡ r.requests
unfolding claim_job grant_claim drop_expired
claim-requests r p now = elim (Reply-cases (claim_decision r p now)) [
  | inr (x, e) ↦ rw (e, claim_job)
  | inl (replayed a, e) ↦ rw (e, claim_job)
  | inl (expired, e) ↦ rw (e, claim_job)
  | inl (claims job, e) ↦ rw (e, claim_job)
]

start-requests : (r : Redis) (c : Caller) (now : ℕ) → (start_job r c now).1.requests ≡ r.requests
unfolding start_job
start-requests r c now = elim (Reply-cases (start_decision r c)) [
  | inr (x, e) ↦ rw (e, start_job)
  | inl (StartDecision.replayed a, e) ↦ rw (e, start_job)
  | inl (StartDecision.starts a, e) ↦ rw (e, start_job)
]

report-requests :
    (r : Redis) (c : Caller) (rep : Report) (now : ℕ)
    → (report_job r c rep now).1.requests ≡ r.requests
unfolding report_job
report-requests r c rep now = elim (Reply-cases (report_decision r c rep)) [
  | inr (x, e) ↦ rw (e, report_job)
  | inl (ReportDecision.replayed, e) ↦ rw (e, report_job)
  | inl (finishes job a, e) ↦ rw (e, report_job)
]

cancel-requests :
    (r : Redis) (p : CancelParams) (now : ℕ) → (cancel_job r p now).1.requests ≡ r.requests
unfolding cancel_job
cancel-requests r p now = elim (Reply-cases (cancel_decision r p now)) [
  | inr (x, e) ↦ rw (e, cancel_job)
  | inl (already_cancelled, e) ↦ rw (e, cancel_job)
  | inl (already_terminal, e) ↦ rw (e, cancel_job)
  | inl (cancels_queued job, e) ↦ rw (e, cancel_job)
  | inl (cancels_active job a rep, e) ↦ rw (e, cancel_job)
]

record-requests :
    (r : Redis) (c : Caller) (res : JobResult) (mode : String) (now : ℕ)
    → (record_job_result r c res mode now).1.requests ≡ r.requests
unfolding record_job_result
record-requests r c res mode now = elim (Reply-cases (record_decision r c res mode)) [
  | inr (x, e) ↦ rw (e, record_job_result)
  | inl (RecordDecision.replayed old, e) ↦ rw (e, record_job_result)
  | inl (RecordDecision.records a, e) ↦ rw (e, record_job_result)
]

prune-requests :
    (r : Redis) (target : String) (ids : List String)
    → (prune_target_queue r target ids).1.requests ≡ r.requests
unfolding prune_target_queue
prune-requests r target [] = refl
prune-requests r target (id ∷ ids) = refl

acquire-requests :
    (r : Redis) (target token : String) (clock now : ℕ)
    → (acquire_fence r target token clock now).1.requests ≡ r.requests
unfolding acquire_fence
acquire-requests r target token clock now = ground arith

takeover-requests :
    (r : Redis) (target token : String) (clock now : ℕ)
    → (takeover_fence r target token clock now).1.requests ≡ r.requests
unfolding takeover_fence
takeover-requests r target token clock now = ground arith

touch-requests :
    (r : Redis) (target token : String) (now : ℕ)
    → (touch_fence r target token now).1.requests ≡ r.requests
unfolding touch_fence
touch-requests r target token now = ground arith

-- A job is only made for a request key that names no job.
create-make-fresh :
    (r : Redis) (job : Job) (request_key : String) (now : ℕ) (id : String)
    → create_decision r job request_key now ≡ done make
    → r.requests request_key ≡ Slot.value id
    → ⊥
unfolding create_decision
create-make-fresh r job request_key now id h e = ground arith

create-requests :
    (r : Redis) (job : Job) (request_key entry_id : String) (now : ℕ) (k id : String)
    → r.requests k ≡ Slot.value id
    → (create_job r job request_key entry_id now).1.requests k ≡ Slot.value id
unfolding create_job make_job
create-requests r job request_key entry_id now k id h =
    elim (Reply-cases (create_decision r job request_key now)) [
      | inr (x, e) ↦ rw (e, create_job) h
      | inl (existing old, e) ↦ rw (e, create_job) h
      | inl (make, e) ↦
          rw (e, create_job)
            (elim (put-cases request_key k (Slot.value job.job_id) r.requests) [
              | inl e' ↦ e' ∙ h
              | inr (same, e') ↦
                  absurd (create-make-fresh r job request_key now id e (rw (sym same) h))
            ])
    ]

step-requests :
    (r : Redis) (c : JobCall) (k id : String)
    → r.requests k ≡ Slot.value id
    → (step r c).requests k ≡ Slot.value id
unfolding step
step-requests r (create_call job request_key entry_id now) k id h =
    create-requests r job request_key entry_id now k id h
step-requests r (claim_call p now) k id h = rw (claim-requests r p now) h
step-requests r (start_call c now) k id h = rw (start-requests r c now) h
step-requests r (report_call c rep now) k id h = rw (report-requests r c rep now) h
step-requests r (cancel_call p now) k id h = rw (cancel-requests r p now) h
step-requests r (record_call c res mode now) k id h = rw (record-requests r c res mode now) h
step-requests r (acquire_call t token clock now) k id h =
    rw (acquire-requests r t token clock now) h
step-requests r (takeover_call t token clock now) k id h =
    rw (takeover-requests r t token clock now) h
step-requests r (touch_call t token now) k id h = rw (touch-requests r t token now) h
step-requests r (release_call t) k id h = unfold release_delete in h
step-requests r (prune_call t ids) k id h = rw (prune-requests r t ids) h

-- A request key that names a job names it under any calls.
pub run-requests :
    (r : Redis) (cs : List JobCall) (k id : String)
    → r.requests k ≡ Slot.value id
    → (run r cs).requests k ≡ Slot.value id
unfolding run
run-requests r [] k id h = h
run-requests r (c ∷ cs) k id h = run-requests (step r c) cs k id (step-requests r c k id h)
