-- ===== src/Jobs/Machine/Attempts.antt =====
-- The moves of the attempt machine that each call makes at a key.
use chief_everything_officer.Base.{ℕ, String, ◌≡◌, refl, inl, inr, arith, List, [], ◌∷◌}
use chief_everything_officer.Base.Redis.{Slot, put}
use chief_everything_officer.Base.Redis.Laws.{put-cases}
use chief_everything_officer.Jobs.Records.{Job, Attempt, Redis, Report, JobResult}
use chief_everything_officer.Jobs.Scripts.Create.{
  make, existing, create_decision, make_job, create_job,
}
use chief_everything_officer.Jobs.Scripts.Claim.{
  ClaimParams, replayed, expired, claims, new_attempt, claim_decision, claim_job, grant_claim,
  drop_expired,
}
use chief_everything_officer.Jobs.Scripts.Start.{Caller, StartDecision, start_decision, start_job}
use chief_everything_officer.Jobs.Scripts.Report.{
  ReportDecision, finishes, report_decision, report_job,
}
use chief_everything_officer.Jobs.Scripts.Cancel.{
  CancelParams, already_cancelled, already_terminal, cancels_queued, cancels_active, attempt_key,
  cancel_decision, cancel_job,
}
use chief_everything_officer.Jobs.Scripts.Record.{
  RecordDecision, record_decision, record_job_result, stored_result,
}
use chief_everything_officer.Jobs.Scripts.Queue.{prune_target_queue}
use chief_everything_officer.Jobs.Scripts.Fences.{
  acquire_fence, takeover_fence, touch_fence, release_delete,
}
use chief_everything_officer.Jobs.Machine.{AttemptMove}
use chief_everything_officer.Jobs.Machine.Calls.{
  JobCall, create_call, claim_call, start_call, report_call, cancel_call, record_call, acquire_call,
  takeover_call, touch_call, release_call, prune_call, step,
}
use chief_everything_officer.Jobs.Machine.Decisions.{
  Reply-cases, claim-claims, start-starts, report-finishes, cancel-active, record-records,
}

-- A write at one key is a move there, and keeps every other key.
put-AttemptMove :
    (attempts : String → Slot Attempt) (key k : String) (v : Slot Attempt)
    → AttemptMove (attempts key) v
    → AttemptMove (attempts k) (put key v attempts k)
put-AttemptMove attempts key k v m = elim (put-cases key k v attempts) [
  | inl e ↦ AttemptMove.keeps e
  | inr (same, e) ↦ rw (e, same) m
]

create-attempts :
    (r : Redis) (job : Job) (request_key entry_id : String) (now : ℕ)
    → (create_job r job request_key entry_id now).1.attempts ≡ r.attempts
unfolding create_job make_job
create-attempts r job request_key entry_id now =
    elim (Reply-cases (create_decision r job request_key now)) [
      | inr (x, e) ↦ rw (e, create_job)
      | inl (existing id, e) ↦ rw (e, create_job)
      | inl (make, e) ↦ rw (e, create_job)
    ]

claim-AttemptMove :
    (r : Redis) (p : ClaimParams) (now : ℕ) (k : String)
    → AttemptMove (r.attempts k) ((claim_job r p now).1.attempts k)
unfolding claim_job grant_claim drop_expired
claim-AttemptMove r p now k = elim (Reply-cases (claim_decision r p now)) [
  | inr (x, e) ↦ rw (e, claim_job) (AttemptMove.keeps refl)
  | inl (replayed a, e) ↦ rw (e, claim_job) (AttemptMove.keeps refl)
  | inl (expired, e) ↦ rw (e, claim_job) (AttemptMove.keeps refl)
  | inl (claims job, e) ↦
      let (_, _, free) = claim-claims r p now e in
      rw (e, claim_job)
        (put-AttemptMove r.attempts p.attempt_id k _
          (AttemptMove.claims (new_attempt p job now) free refl refl refl))
]

start-AttemptMove :
    (r : Redis) (c : Caller) (now : ℕ) (k : String)
    → AttemptMove (r.attempts k) ((start_job r c now).1.attempts k)
unfolding start_job
start-AttemptMove r c now k = elim (Reply-cases (start_decision r c)) [
  | inr (x, e) ↦ rw (e, start_job) (AttemptMove.keeps refl)
  | inl (StartDecision.replayed a, e) ↦ rw (e, start_job) (AttemptMove.keeps refl)
  | inl (StartDecision.starts a, e) ↦
      let (there, free) = start-starts r c e in
      rw (e, start_job)
        (put-AttemptMove r.attempts c.attempt_id k _ (AttemptMove.starts a now there free refl))
]

report-AttemptMove :
    (r : Redis) (c : Caller) (rep : Report) (now : ℕ) (k : String)
    → AttemptMove (r.attempts k) ((report_job r c rep now).1.attempts k)
unfolding report_job
report-AttemptMove r c rep now k = elim (Reply-cases (report_decision r c rep)) [
  | inr (x, e) ↦ rw (e, report_job) (AttemptMove.keeps refl)
  | inl (ReportDecision.replayed, e) ↦ rw (e, report_job) (AttemptMove.keeps refl)
  | inl (finishes job a, e) ↦
      let (_, _, there, live) = report-finishes r c rep e in
      rw (e, report_job)
        (put-AttemptMove r.attempts c.attempt_id k _ (AttemptMove.reports a _ there live refl))
]

cancel-AttemptMove :
    (r : Redis) (p : CancelParams) (now : ℕ) (k : String)
    → AttemptMove (r.attempts k) ((cancel_job r p now).1.attempts k)
unfolding cancel_job
cancel-AttemptMove r p now k = elim (Reply-cases (cancel_decision r p now)) [
  | inr (x, e) ↦ rw (e, cancel_job) (AttemptMove.keeps refl)
  | inl (already_cancelled, e) ↦ rw (e, cancel_job) (AttemptMove.keeps refl)
  | inl (already_terminal, e) ↦ rw (e, cancel_job) (AttemptMove.keeps refl)
  | inl (cancels_queued job, e) ↦ rw (e, cancel_job) (AttemptMove.keeps refl)
  | inl (cancels_active job a rep, e) ↦
      let (_, _, there, live) = cancel-active r p now e in
      rw (e, cancel_job)
        (put-AttemptMove r.attempts (attempt_key p) k _ (AttemptMove.reports a _ there live refl))
]

record-AttemptMove :
    (r : Redis) (c : Caller) (res : JobResult) (mode : String) (now : ℕ) (k : String)
    → AttemptMove (r.attempts k) ((record_job_result r c res mode now).1.attempts k)
unfolding record_job_result
record-AttemptMove r c res mode now k = elim (Reply-cases (record_decision r c res mode)) [
  | inr (x, e) ↦ rw (e, record_job_result) (AttemptMove.keeps refl)
  | inl (RecordDecision.replayed old, e) ↦ rw (e, record_job_result) (AttemptMove.keeps refl)
  | inl (RecordDecision.records a, e) ↦
      rw (e, record_job_result)
        (put-AttemptMove r.attempts c.attempt_id k _
          (AttemptMove.results a (stored_result res now) (record-records r c res mode e) refl))
]

pub acquire-attempts :
    (r : Redis) (target token : String) (clock now : ℕ)
    → (acquire_fence r target token clock now).1.attempts ≡ r.attempts
unfolding acquire_fence
acquire-attempts r target token clock now = ground arith

pub takeover-attempts :
    (r : Redis) (target token : String) (clock now : ℕ)
    → (takeover_fence r target token clock now).1.attempts ≡ r.attempts
unfolding takeover_fence
takeover-attempts r target token clock now = ground arith

pub touch-attempts :
    (r : Redis) (target token : String) (now : ℕ)
    → (touch_fence r target token now).1.attempts ≡ r.attempts
unfolding touch_fence
touch-attempts r target token now = ground arith

pub prune-attempts :
    (r : Redis) (target : String) (ids : List String)
    → (prune_target_queue r target ids).1.attempts ≡ r.attempts
unfolding prune_target_queue
prune-attempts r target [] = refl
prune-attempts r target (id ∷ ids) = refl

-- Each call on the store keeps the attempt at a key, claims it where there was none, starts it when
-- it is claimed, ends it with a report when it is claimed or running, or gives it a result.
pub step-AttemptMove :
    (r : Redis) (c : JobCall) (k : String) → AttemptMove (r.attempts k) ((step r c).attempts k)
unfolding step
step-AttemptMove r (create_call job request_key entry_id now) k =
    rw (create-attempts r job request_key entry_id now) (AttemptMove.keeps refl)
step-AttemptMove r (claim_call p now) k = claim-AttemptMove r p now k
step-AttemptMove r (start_call c now) k = start-AttemptMove r c now k
step-AttemptMove r (report_call c rep now) k = report-AttemptMove r c rep now k
step-AttemptMove r (cancel_call p now) k = cancel-AttemptMove r p now k
step-AttemptMove r (record_call c res mode now) k = record-AttemptMove r c res mode now k
step-AttemptMove r (acquire_call target token clock now) k =
    rw (acquire-attempts r target token clock now) (AttemptMove.keeps refl)
step-AttemptMove r (takeover_call target token clock now) k =
    rw (takeover-attempts r target token clock now) (AttemptMove.keeps refl)
step-AttemptMove r (touch_call target token now) k =
    rw (touch-attempts r target token now) (AttemptMove.keeps refl)
step-AttemptMove r (release_call target) k = unfold release_delete in AttemptMove.keeps refl
step-AttemptMove r (prune_call target ids) k =
    rw (prune-attempts r target ids) (AttemptMove.keeps refl)
