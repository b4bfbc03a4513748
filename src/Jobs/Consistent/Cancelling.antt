-- ===== src/Jobs/Consistent/Cancelling.antt =====
-- When cancelJob of services/server/src/jobs/v2-store.ts succeeds on a live job of a consistent
-- store.
use chief_everything_officer.Base.{
  ℕ, String, true, false, not, Option, none, some, ◌≡◌, refl, sym, ◌∙◌, ap, ◌⊎◌, inl, inr, arith,
  ◌==◌, ◌&&◌, ◌||◌, eq_iff, eq_refl, holds_text,
}
use chief_everything_officer.Base.Redis.{Slot, is_bad_type}
use chief_everything_officer.Jobs.Records.{
  Job, JobStatus, queued, active, Attempt, AttemptPhase, claimed, running, Stamp, null, invalid, at,
  Report, Redis, done, is_queued, is_active, is_claimed, is_running, is_number,
}
use chief_everything_officer.Jobs.Scripts.Cancel.{
  CancelParams, cancelled, cancels_queued, cancels_active, attempt_key, linked, operator_report,
  cancel_decision, cancel_active, cancel_status, cancel_job,
}
use chief_everything_officer.Jobs.Consistent.{is_live, LinkFits, KeyFits, IsConsistent}
use chief_everything_officer.Jobs.Consistent.Keep.{job_id-eq, attempt_id-eq}

live-report :
    (p : CancelParams) (now : ℕ) (phase : AttemptPhase) (started : Stamp)
    → (is_claimed phase || (is_running phase && is_number started)) ≡ true
    → (rep : Report) × (operator_report p now phase started ≡ done rep)
live-report p now claimed started h = (_, refl)
live-report p now running (at n) h = (_, refl)
live-report p now running null h = absurd (ground arith)
live-report p now running invalid h = absurd (ground arith)
live-report p now AttemptPhase.terminal started h = absurd (ground arith)

cancel_active-done :
    (r : Redis) (p : CancelParams) (job : Job) (now : ℕ) (a : Attempt)
    → r.attempts (attempt_key p) ≡ Slot.value a
    → (a.job_id == job.job_id) ≡ true
    → holds_text job.latest_attempt_id a.attempt_id ≡ true
    → is_live a ≡ true
    → (rep : Report) × (cancel_active r p job now ≡ done (cancels_active job a rep))
unfolding cancel_active
cancel_active-done r p job now a e own link live =
    let (rep, k) = live-report p now a.phase a.started_at_ms live in (rep, rw (e, own, link, k))

linked-key :
    (p : CancelParams) (id : String)
    → linked (some id) p.expected_attempt_id ≡ true
    → (p.expected_attempt_id == "") ≡ false
    → attempt_key p ≡ id
linked-key p id h k = rw k (sym ((eq_iff id p.expected_attempt_id).0 h))

active-done :
    (r : Redis) (p : CancelParams) (job : Job) (now : ℕ) (l : Option String)
    → ((k : String) → KeyFits k (r.attempts k))
    → job.latest_attempt_id ≡ l
    → job.job_id ≡ p.job_id
    → LinkFits r.attempts p.job_id active l
    → linked l p.expected_attempt_id ≡ true
    → (p.expected_attempt_id == "") ≡ false
    → (a : Attempt) × (rep : Report) × (cancel_active r p job now ≡ done (cancels_active job a rep))
active-done r p job now none g e name h k n = absurd (ground arith)
active-done r p job now (some id) g e name (a, there, own, live) k n =
    let key = linked-key p id k n in
    let at_key : r.attempts (attempt_key p) ≡ Slot.value a = ap r.attempts key ∙ there in
    let mine : (a.job_id == job.job_id) ≡ true = (eq_iff a.job_id job.job_id).1 (own ∙ sym name) in
    let link : holds_text job.latest_attempt_id a.attempt_id ≡ true =
      rw (e, attempt_id-eq r id a g there) (eq_refl id) in
    let (rep, done_now) = cancel_active-done r p job now a at_key mine link live in
    (a, rep, done_now)

status-done :
    (r : Redis) (p : CancelParams) (job : Job) (now : ℕ) (s : JobStatus)
    → ((k : String) → KeyFits k (r.attempts k))
    → job.job_id ≡ p.job_id
    → LinkFits r.attempts p.job_id s job.latest_attempt_id
    → (is_queued s || is_active s) ≡ true
    → linked job.latest_attempt_id p.expected_attempt_id ≡ true
    → (is_queued s || not (p.expected_attempt_id == "")) ≡ true
    → (cancel_status r p job now s ≡ done (cancels_queued job))
      ⊎ ((a : Attempt) × (rep : Report) × (cancel_status r p job now s
            ≡ done (cancels_active job a rep)))
status-done r p job now queued g name h live k n = inl (rw k)
status-done r p job now active g name h live k n =
    let (a, rep, e) =
      active-done r p job now job.latest_attempt_id g refl name h k (ground arith) in
    inr (a, rep, rw k e)
status-done r p job now _ g name h live k n = absurd (ground arith)

-- In a consistent store a cancellation of a queued or active job succeeds, when the caller names the
-- job's current attempt (a non-empty identifier, when the job is active) and neither that attempt's key
-- nor the queue's key is of another Redis type.
pub cancel_succeeds :
    (r : Redis) (p : CancelParams) (now : ℕ) (job : Job)
    → IsConsistent r
    → r.jobs p.job_id ≡ Slot.value job
    → (is_queued job.status || is_active job.status) ≡ true
    → linked job.latest_attempt_id p.expected_attempt_id ≡ true
    → (is_queued job.status || not (p.expected_attempt_id == "")) ≡ true
    → is_bad_type (r.attempts (attempt_key p)) ≡ false
    → is_bad_type (r.queues p.target_id) ≡ false
    → (cancel_job r p now).0 ≡ done cancelled
unfolding IsConsistent cancel_job cancel_decision
cancel_succeeds r p now job (h, g) there live k n b c =
    let (name, fits) = job_id-eq r p.job_id job h there in
    elim (status-done r p job now job.status g name fits live k n) [
      | inl e ↦ rw (there, b, c, e)
      | inr (a, rep, e) ↦ rw (there, b, c, e)
    ]
