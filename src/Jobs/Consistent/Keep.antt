-- ===== src/Jobs/Consistent/Keep.antt =====
-- The invariant of jobs and attempts under creation, claim and start.
use chief_everything_officer.Base.{ℕ, String, true, ◌≡◌, refl, subst, inl, inr, arith}
use chief_everything_officer.Base.Redis.{Slot, put}
use chief_everything_officer.Base.Redis.Laws.{put_self}
use chief_everything_officer.Jobs.Records.{
  Job, JobStatus, preparing, queued, active, Attempt, Redis, done, is_claimed,
}
use chief_everything_officer.Jobs.Scripts.Create.{
  make, existing, create_decision, make_job, create_job,
}
use chief_everything_officer.Jobs.Scripts.Claim.{
  ClaimParams, replayed, expired, claims, new_attempt, claim_decision, claim_job, grant_claim,
  drop_expired,
}
use chief_everything_officer.Jobs.Scripts.Start.{
  Caller, StartDecision, started, start_decision, start_job,
}
use chief_everything_officer.Jobs.Machine.Decisions.{Reply-cases, claim-claims, start-starts}
use chief_everything_officer.Jobs.Consistent.{
  AttemptFits, LinkFits, JobFits, KeyFits, IsConsistent, put-JobFits, put_job-JobFits, put-KeyFits,
}

pub create-IsConsistent :
    (r : Redis) (job : Job) (request_key entry_id : String) (now : ℕ)
    → IsConsistent r
    → IsConsistent (create_job r job request_key entry_id now).1
unfolding IsConsistent make_job create_job
create-IsConsistent r job request_key entry_id now (h, g) =
    elim (Reply-cases (create_decision r job request_key now)) [
      | inr (x, e) ↦ rw (e, create_job) (h, g)
      | inl (existing id, e) ↦ rw (e, create_job) (h, g)
      | inl (make, e) ↦
          rw (e, create_job)
            (λ k. put_job-JobFits r.jobs r.attempts job.job_id k _ (refl, refl) (λ _. h k), g)
    ]

missing-AttemptFits :
    (x v : Slot Attempt) (k : String) (s : JobStatus)
    → x ≡ Slot.missing
    → AttemptFits x k s
    → AttemptFits v k s
missing-AttemptFits x v k active e (a, e', _, _) = absurd (ground arith)
missing-AttemptFits x v k JobStatus.terminal e (a, e', _, _) = absurd (ground arith)
missing-AttemptFits x v k preparing e h = h
missing-AttemptFits x v k queued e h = h

pub job_id-eq :
    (r : Redis) (k : String) (job : Job)
    → ((k : String) → JobFits r.attempts k (r.jobs k))
    → r.jobs k ≡ Slot.value job
    → (job.job_id ≡ k) × LinkFits r.attempts k job.status job.latest_attempt_id
job_id-eq r k job h e = subst (λ x. JobFits r.attempts k x) e (h k)

grant-IsConsistent :
    (r : Redis) (p : ClaimParams) (now : ℕ) (job : Job)
    → claim_decision r p now ≡ done (claims job)
    → IsConsistent r
    → IsConsistent (grant_claim r p job now)
unfolding IsConsistent grant_claim
grant-IsConsistent r p now job e (h, g) =
    let (there, _, free) = claim-claims r p now e in
    let (same, _) = job_id-eq r p.job_id job h there in
    let a = Slot.value (new_attempt p job now) in
    (
      λ k.
          put_job-JobFits r.jobs (put p.attempt_id a r.attempts) p.job_id k _
            (
              same,
              rw (put_self p.attempt_id a r.attempts) (new_attempt p job now, refl, same, refl),
            )
            (λ _.
              put-JobFits r.attempts p.attempt_id k a (r.jobs k)
                (λ s. missing-AttemptFits (r.attempts p.attempt_id) a k s free) (h k)),
      λ k. put-KeyFits r.attempts p.attempt_id k a refl (g k),
    )

pub claim-IsConsistent :
    (r : Redis) (p : ClaimParams) (now : ℕ) → IsConsistent r → IsConsistent (claim_job r p now).1
unfolding IsConsistent drop_expired claim_job
claim-IsConsistent r p now h = elim (Reply-cases (claim_decision r p now)) [
  | inr (x, e) ↦ rw (e, claim_job) h
  | inl (replayed a, e) ↦ rw (e, claim_job) h
  | inl (expired, e) ↦ rw (e, claim_job) h
  | inl (claims job, e) ↦ rw (e, claim_job) (grant-IsConsistent r p now job e h)
]

started-AttemptFits :
    (x : Slot Attempt) (a : Attempt) (now : ℕ) (k : String) (s : JobStatus)
    → x ≡ Slot.value a
    → is_claimed a.phase ≡ true
    → AttemptFits x k s
    → AttemptFits (Slot.value (started a now)) k s
started-AttemptFits x a now k active e c (b, e', i, l) = (started a now, refl, ground arith, refl)
started-AttemptFits x a now k JobStatus.terminal e c (b, e', i, l) = absurd (ground arith)
started-AttemptFits x a now k preparing e c h = h
started-AttemptFits x a now k queued e c h = h

-- The key law of an attempt that is there.
pub attempt_id-eq :
    (r : Redis) (k : String) (a : Attempt)
    → ((k : String) → KeyFits k (r.attempts k))
    → r.attempts k ≡ Slot.value a
    → a.attempt_id ≡ k
attempt_id-eq r k a g e = subst (λ x. KeyFits k x) e (g k)

pub start-IsConsistent :
    (r : Redis) (c : Caller) (now : ℕ) → IsConsistent r → IsConsistent (start_job r c now).1
unfolding IsConsistent start_job
start-IsConsistent r c now (h, g) = elim (Reply-cases (start_decision r c)) [
  | inr (x, e) ↦ rw (e, start_job) (h, g)
  | inl (StartDecision.replayed a, e) ↦ rw (e, start_job) (h, g)
  | inl (StartDecision.starts a, e) ↦
      let (there, free) = start-starts r c e in
      rw (e, start_job)
        (
          λ k.
              put-JobFits r.attempts c.attempt_id k _ (r.jobs k)
                (λ s. started-AttemptFits (r.attempts c.attempt_id) a now k s there free) (h k),
          λ k.
              put-KeyFits r.attempts c.attempt_id k _ (attempt_id-eq r c.attempt_id a g there)
                (g k),
        )
]
