-- ===== src/Jobs/Consistent/Calls.antt =====
-- The invariant of jobs and attempts under each call on the store of
-- services/server/src/jobs/v2-store.ts.
use chief_everything_officer.Base.{
  ℕ, String, true, false, Option, none, some, ◌≡◌, refl, ◌∙◌, subst, inl, inr, arith, ◌==◌, eq_iff,
  eq_refl, holds_text, holds_text-eq, List, [], ◌∷◌,
}
use chief_everything_officer.Base.Redis.{Slot, Keys, put}
use chief_everything_officer.Base.Redis.Laws.{put_self}
use chief_everything_officer.Jobs.Records.{
  Job, JobStatus, preparing, queued, active, Attempt, AttemptPhase, Report, JobResult, StoredReport,
  Redis, done, is_queued,
}
use chief_everything_officer.Jobs.Scripts.{is_owned}
use chief_everything_officer.Jobs.Scripts.Start.{Caller}
use chief_everything_officer.Jobs.Scripts.Report.{
  ReportDecision, finishes, finished_job, report_decision, report_job,
}
use chief_everything_officer.Jobs.Scripts.Cancel.{
  CancelParams, already_cancelled, already_terminal, cancels_queued, cancels_active, attempt_key,
  cancelled_job, cancel_decision, cancel_active, cancel_terminal, cancel_job,
}
use chief_everything_officer.Jobs.Scripts.Record.{
  RecordDecision, record_decision, record_job_result, with_result,
}
use chief_everything_officer.Jobs.Scripts.Fences.{release_delete}
use chief_everything_officer.Jobs.Machine.Calls.{
  JobCall, create_call, claim_call, start_call, report_call, cancel_call, record_call, acquire_call,
  takeover_call, touch_call, release_call, prune_call, step, run,
}
use chief_everything_officer.Jobs.Machine.Decisions.{
  Reply-cases, report-finishes, cancel-queued, cancel-active, record-records,
}
use chief_everything_officer.Jobs.Machine.Jobs.{acquire-jobs, takeover-jobs, touch-jobs, prune-jobs}
use chief_everything_officer.Jobs.Machine.Attempts.{
  acquire-attempts, takeover-attempts, touch-attempts, prune-attempts,
}
use chief_everything_officer.Jobs.Reports.{report-checks}
use chief_everything_officer.Jobs.Consistent.{
  AttemptFits, LinkFits, IsConsistent, put-JobFits, put_job-JobFits, put-KeyFits,
}
use chief_everything_officer.Jobs.Consistent.Keep.{
  create-IsConsistent, claim-IsConsistent, start-IsConsistent, job_id-eq, attempt_id-eq,
}

-- An attempt of one job is not that of another.
foreign-AttemptFits :
    (x v : Slot Attempt) (a : Attempt) (k own : String) (s : JobStatus)
    → x ≡ Slot.value a
    → a.job_id ≡ own
    → (k == own) ≡ false
    → AttemptFits x k s
    → AttemptFits v k s
foreign-AttemptFits x v a k own active e o f (b, e', i, l) = absurd (grind (arith, eq_refl k))
foreign-AttemptFits x v a k own JobStatus.terminal e o f (b, e', i, l) =
    absurd (grind (arith, eq_refl k))
foreign-AttemptFits x v a k own preparing e o f h = h
foreign-AttemptFits x v a k own queued e o f h = h

-- Ending an active job together with its attempt.
end-IsConsistent :
    (r : Redis) (key id : String) (job : Job) (a : Attempt) (stored : StoredReport) (new : Job)
    → r.jobs key ≡ Slot.value job
    → r.attempts id ≡ Slot.value a
    → a.job_id ≡ key
    → new.job_id ≡ job.job_id
    → new.status ≡ JobStatus.terminal
    → new.latest_attempt_id ≡ some id
    → IsConsistent r
    → IsConsistent (record r {
      attempts =
          put id
            (Slot.value (record a { phase = AttemptPhase.terminal; report = some stored }))
            r.attempts;
      jobs = put key (Slot.value new) r.jobs;
    })
unfolding IsConsistent
end-IsConsistent r key id job a stored new there at_id own name ended link (h, g) =
    let (same, _) = job_id-eq r key job h there in
    let b = record a { phase = AttemptPhase.terminal; report = some stored } in
    let fits : AttemptFits (put id (Slot.value b) r.attempts id) key JobStatus.terminal =
      rw (put_self id (Slot.value b) r.attempts) (b, refl, own, refl) in
    (
      λ k.
          put_job-JobFits r.jobs (put id (Slot.value b) r.attempts) key k _
            (name ∙ same, rw (ended, link) fits)
            (λ other.
              put-JobFits r.attempts id k (Slot.value b) (r.jobs k)
                (λ s. foreign-AttemptFits (r.attempts id) _ a k key s at_id own other) (h k)),
      λ k. put-KeyFits r.attempts id k _ (attempt_id-eq r id a g at_id) (g k),
    )

owned-job_id :
    (a : Attempt) (job : Job) (id device token : String)
    → is_owned a job id device token ≡ true
    → a.job_id ≡ job.job_id
unfolding is_owned
owned-job_id a job id device token h = (eq_iff a.job_id job.job_id).0 (ground arith)

report-IsConsistent :
    (r : Redis) (c : Caller) (rep : Report) (now : ℕ)
    → IsConsistent r
    → IsConsistent (report_job r c rep now).1
unfolding IsConsistent report_job
report-IsConsistent r c rep now h = elim (Reply-cases (report_decision r c rep)) [
  | inr (x, e) ↦ rw (e, report_job) h
  | inl (ReportDecision.replayed, e) ↦ rw (e, report_job) h
  | inl (finishes job a, e) ↦
      let (there, _, at_id, _) = report-finishes r c rep e in
      let (_, linked, owned, _) = report-checks r c rep e in
      let (same, _) = job_id-eq r c.job_id job h.0 there in
      rw (e, report_job)
        (end-IsConsistent r c.job_id c.attempt_id job a _ (finished_job job) there at_id
          (owned-job_id a job c.attempt_id c.device_id c.claim_token_sha256 owned ∙ same) refl refl
          (holds_text-eq job.latest_attempt_id c.attempt_id linked) h)
]

cancel-checks :
    (r : Redis) (p : CancelParams) (now : ℕ) {job : Job} {a : Attempt} {rep : Report}
    → cancel_decision r p now ≡ done (cancels_active job a rep)
    → ((a.job_id == job.job_id) ≡ true) × (holds_text job.latest_attempt_id a.attempt_id ≡ true)
unfolding cancel_decision cancel_active cancel_terminal
cancel-checks r p now h = ground arith

queued-LinkFits :
    (attempts : Keys Attempt) (k : String) (s : JobStatus) (l : Option String)
    → is_queued s ≡ true
    → LinkFits attempts k s l
    → LinkFits attempts k JobStatus.terminal l
queued-LinkFits attempts k s none q h = refl
queued-LinkFits attempts k queued (some id) q h = elim h [ ]
queued-LinkFits attempts k _ (some id) q h = absurd (ground arith)

cancel-IsConsistent :
    (r : Redis) (p : CancelParams) (now : ℕ) → IsConsistent r → IsConsistent (cancel_job r p now).1
unfolding IsConsistent cancel_job
cancel-IsConsistent r p now (h, g) = elim (Reply-cases (cancel_decision r p now)) [
  | inr (x, e) ↦ rw (e, cancel_job) (h, g)
  | inl (already_cancelled, e) ↦ rw (e, cancel_job) (h, g)
  | inl (already_terminal, e) ↦ rw (e, cancel_job) (h, g)
  | inl (cancels_queued job, e) ↦
      let (there, free) = cancel-queued r p now e in
      let (same, fits) = job_id-eq r p.job_id job h there in
      rw (e, cancel_job)
        (
          λ k.
              put_job-JobFits r.jobs r.attempts p.job_id k _
                (
                  same,
                  queued-LinkFits r.attempts p.job_id job.status job.latest_attempt_id free fits,
                )
                (λ _. h k),
          g,
        )
  | inl (cancels_active job a rep, e) ↦
      let (there, _, at_id, _) = cancel-active r p now e in
      let (own, linked) = cancel-checks r p now e in
      let (same, _) = job_id-eq r p.job_id job h there in
      rw (e, cancel_job)
        (end-IsConsistent r p.job_id (attempt_key p) job a _ (cancelled_job p now job) there at_id
          ((eq_iff a.job_id job.job_id).0 own ∙ same) refl refl
          (holds_text-eq job.latest_attempt_id (attempt_key p) (
            subst (λ i. holds_text job.latest_attempt_id i ≡ true)
              (attempt_id-eq r (attempt_key p) a g at_id) linked))
          (h, g))
]

result-AttemptFits :
    (x : Slot Attempt) (a : Attempt) (res : JobResult) (k : String) (s : JobStatus)
    → x ≡ Slot.value a
    → AttemptFits x k s
    → AttemptFits (Slot.value (with_result a res)) k s
result-AttemptFits x a res k active e (b, e', i, l) =
    (with_result a res, refl, ground arith, ground arith)
result-AttemptFits x a res k JobStatus.terminal e (b, e', i, l) =
    (with_result a res, refl, ground arith, ground arith)
result-AttemptFits x a res k preparing e h = h
result-AttemptFits x a res k queued e h = h

record-IsConsistent :
    (r : Redis) (c : Caller) (res : JobResult) (mode : String) (now : ℕ)
    → IsConsistent r
    → IsConsistent (record_job_result r c res mode now).1
unfolding IsConsistent record_job_result
record-IsConsistent r c res mode now (h, g) = elim (Reply-cases (record_decision r c res mode)) [
  | inr (x, e) ↦ rw (e, record_job_result) (h, g)
  | inl (RecordDecision.replayed old, e) ↦ rw (e, record_job_result) (h, g)
  | inl (RecordDecision.records a, e) ↦
      let there = record-records r c res mode e in
      rw (e, record_job_result)
        (
          λ k.
              put-JobFits r.attempts c.attempt_id k _ (r.jobs k)
                (λ s. result-AttemptFits (r.attempts c.attempt_id) a _ k s there) (h k),
          λ k.
              put-KeyFits r.attempts c.attempt_id k _ (attempt_id-eq r c.attempt_id a g there)
                (g k),
        )
]

same-IsConsistent :
    (r s : Redis) → s.jobs ≡ r.jobs → s.attempts ≡ r.attempts → IsConsistent r → IsConsistent s
unfolding IsConsistent
same-IsConsistent r s e e' h = rw (e, e') h

step-IsConsistent : (r : Redis) (c : JobCall) → IsConsistent r → IsConsistent (step r c)
unfolding step
step-IsConsistent r (create_call job request_key entry_id now) h =
    create-IsConsistent r job request_key entry_id now h
step-IsConsistent r (claim_call p now) h = claim-IsConsistent r p now h
step-IsConsistent r (start_call c now) h = start-IsConsistent r c now h
step-IsConsistent r (report_call c rep now) h = report-IsConsistent r c rep now h
step-IsConsistent r (cancel_call p now) h = cancel-IsConsistent r p now h
step-IsConsistent r (record_call c res mode now) h = record-IsConsistent r c res mode now h
step-IsConsistent r (acquire_call t token clock now) h =
    same-IsConsistent r _ (acquire-jobs r t token clock now) (acquire-attempts r t token clock now)
      h
step-IsConsistent r (takeover_call t token clock now) h =
    same-IsConsistent r _ (takeover-jobs r t token clock now)
      (takeover-attempts r t token clock now) h
step-IsConsistent r (touch_call t token now) h =
    same-IsConsistent r _ (touch-jobs r t token now) (touch-attempts r t token now) h
step-IsConsistent r (release_call t) h =
    unfold release_delete in (same-IsConsistent r _ refl refl h)
step-IsConsistent r (prune_call t ids) h =
    same-IsConsistent r _ (prune-jobs r t ids) (prune-attempts r t ids) h

-- Any calls on a store whose jobs and attempts fit leave one whose jobs and attempts fit: a queued
-- job has no attempt, an active job has a claimed or running one of its own, and a terminal job has
-- a terminal one with a report, or none.
pub run-IsConsistent : (r : Redis) (cs : List JobCall) → IsConsistent r → IsConsistent (run r cs)
unfolding run
run-IsConsistent r [] h = h
run-IsConsistent r (c ∷ cs) h = run-IsConsistent (step r c) cs (step-IsConsistent r c h)
