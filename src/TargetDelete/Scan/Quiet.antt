-- ===== src/TargetDelete/Scan/Quiet.antt =====
-- What cannot run on a fenced target, under the calls of others.
pub mod Sound
pub mod Loop
pub mod Verify
use chief_everything_officer.Base.{
  ℕ, String, Bool, true, false, not, Option, none, some, ◌≡◌, refl, sym, ◌∙◌, inl, inr, arith, ◌==◌,
  ◌&&◌, ◌||◌, ◌+◌, ◌<◌, leb, List, [], ◌∷◌, All, eq_iff, eq_refl, Bool-cases,
}
use chief_everything_officer.Base.Redis.{Slot, put}
use chief_everything_officer.Base.Redis.Laws.{put-cases}
use chief_everything_officer.Jobs.Records.{
  Job, JobStatus, Fence, Redis, Reply, done, error, Report, JobResult, is_queued, is_terminal,
}
use chief_everything_officer.Jobs.Scripts.{fence_ttl_ms, is_fenced}
use chief_everything_officer.Jobs.Scripts.Create.{
  make, existing, create_decision, create_job, make_job, queued_job,
}
use chief_everything_officer.Jobs.Scripts.Claim.{
  ClaimParams, replayed, expired, claims, claim_decision, claim_job, grant_claim, drop_expired,
  activated, is_past_deadline, same_job,
}
use chief_everything_officer.Jobs.Scripts.Report.{
  ReportDecision, finishes, report_decision, report_job, finished_job,
}
use chief_everything_officer.Jobs.Scripts.Cancel.{
  CancelParams, already_cancelled, already_terminal, cancels_queued, cancels_active,
  cancel_decision, cancel_job, cancelled_job,
}
use chief_everything_officer.Jobs.Scripts.Start.{Caller}
use chief_everything_officer.Jobs.Scripts.Fences.{release_delete}
use chief_everything_officer.Jobs.Machine.Calls.{
  JobCall, create_call, claim_call, start_call, report_call, cancel_call, record_call, acquire_call,
  takeover_call, touch_call, release_call, prune_call, step, run,
}
use chief_everything_officer.Jobs.Machine.Decisions.{Reply-cases, claim-claims}
use chief_everything_officer.Jobs.Machine.Jobs.{
  start-jobs, record-jobs, acquire-jobs, takeover-jobs, touch-jobs, prune-jobs,
}
use chief_everything_officer.Jobs.Fenced.{
  IsUp, keeps_fence, IsUp-is_fenced, fenced-create, step-IsUp,
}

-- A job that has ended, or that no one has claimed before its deadline.
abbrev pub is_dead : ℕ → Job → Bool
is_dead now job = is_terminal job.status || (is_queued job.status && is_past_deadline job now)

-- No job at the slot can run on the target.
abbrev pub IsDead : ℕ → String → Slot Job → Type 0
IsDead now target (Slot.value job) = (not (job.target_id == target) || is_dead now job) ≡ true
IsDead now target _ = Unit {0}

-- A call that keeps the fence up, and that reads the Redis clock while the fence is.
abbrev pub is_calm : String → ℕ → ℕ → JobCall → Bool
is_calm target start later (create_call job request_key entry_id now) = leb now later
is_calm target start later (claim_call p now) = leb now later
is_calm target start later c = keeps_fence target start c

calm-keeps :
    (target : String) (start later : ℕ) (c : JobCall)
    → is_calm target start later c ≡ true
    → keeps_fence target start c ≡ true
calm-keeps target start later (create_call job request_key entry_id now) h = refl
calm-keeps target start later (claim_call p now) h = refl
calm-keeps target start later (start_call c now) h = h
calm-keeps target start later (report_call c rep now) h = h
calm-keeps target start later (cancel_call p now) h = h
calm-keeps target start later (record_call c res mode now) h = h
calm-keeps target start later (acquire_call t token clock now) h = h
calm-keeps target start later (takeover_call t token clock now) h = h
calm-keeps target start later (touch_call t token now) h = h
calm-keeps target start later (release_call t) h = h
calm-keeps target start later (prune_call t ids) h = h

IsUp-before :
    (s : Slot Fence) (start later now : ℕ)
    → later < start + fence_ttl_ms
    → leb now later ≡ true
    → IsUp start later s
    → is_fenced now s ≡ true
IsUp-before s start later now k h (f, e, x, l) =
    IsUp-is_fenced s start now (ground arith) (f, e, x, ground arith)

claim-unfenced :
    (r : Redis) (p : ClaimParams) (now : ℕ) (job : Job)
    → claim_decision r p now ≡ done (claims job)
    → is_fenced now (r.fences p.target_id) ≡ false
unfolding claim_decision
claim-unfenced r p now job h = ground arith

claim-same_job :
    (r : Redis) (p : ClaimParams) (now : ℕ) (job : Job)
    → claim_decision r p now ≡ done (claims job)
    → r.jobs p.job_id ≡ Slot.value job
    → same_job job p ≡ true
unfolding claim_decision
claim-same_job r p now job h e = ground arith

-- A granted claim is of a job whose target has no fence up.
claim-target :
    (r : Redis) (p : ClaimParams) (now : ℕ) (job : Job)
    → claim_decision r p now ≡ done (claims job)
    → is_fenced now (r.fences job.target_id) ≡ false
claim-target r p now job h =
    let (there, _, _) = claim-claims r p now h in
    let same = claim-same_job r p now job h there in
    let name : job.target_id ≡ p.target_id = (eq_iff job.target_id p.target_id).0 (ground arith) in
    rw name (claim-unfenced r p now job h)

-- A job whose target has no fence up is of another target than the fenced one.
other-target :
    (r : Redis) (job : Job) (target : String) (now : ℕ)
    → is_fenced now (r.fences target) ≡ true
    → (is_fenced now (r.fences job.target_id) ≡ true → ⊥)
    → (job.target_id == target) ≡ false
other-target r job target now h f = elim (Bool-cases (job.target_id == target)) [
  | inl e ↦ absurd (f (rw ((eq_iff job.target_id target).0 e) h))
  | inr e ↦ e
]

put-IsDead :
    (now : ℕ) (target key k : String) (v : Slot Job) (jobs : String → Slot Job)
    → IsDead now target v
    → IsDead now target (jobs k)
    → IsDead now target (put key v jobs k)
put-IsDead now target key k v jobs h g = elim (put-cases key k v jobs) [
  | inl e ↦ rw e g
  | inr (same, e) ↦ rw e h
]

create-IsDead :
    (r : Redis) (job : Job) (request_key entry_id : String) (time : ℕ) (now : ℕ) (target k : String)
    → is_fenced time (r.fences target) ≡ true
    → IsDead now target (r.jobs k)
    → IsDead now target ((create_job r job request_key entry_id time).1.jobs k)
unfolding create_job make_job
create-IsDead r job request_key entry_id time now target k h g =
    elim (Reply-cases (create_decision r job request_key time)) [
      | inr (x, e) ↦ rw (e, create_job) g
      | inl (existing id, e) ↦ rw (e, create_job) g
      | inl (make, e) ↦
          let other =
            other-target r job target time h (λ f. fenced-create r job request_key time f e) in
          rw (e, create_job)
            (put-IsDead now target job.job_id k (Slot.value (queued_job job entry_id)) r.jobs
              (rw other refl) g)
    ]

claim-IsDead :
    (r : Redis) (p : ClaimParams) (time now : ℕ) (target k : String)
    → is_fenced time (r.fences target) ≡ true
    → IsDead now target (r.jobs k)
    → IsDead now target ((claim_job r p time).1.jobs k)
unfolding claim_job grant_claim drop_expired
claim-IsDead r p time now target k h g = elim (Reply-cases (claim_decision r p time)) [
  | inr (x, e) ↦ rw (e, claim_job) g
  | inl (replayed a, e) ↦ rw (e, claim_job) g
  | inl (expired, e) ↦ rw (e, claim_job) g
  | inl (claims job, e) ↦
      let down = claim-target r p time job e in
      let other = other-target r job target time h (λ f. ground arith) in
      rw (e, claim_job)
        (put-IsDead now target p.job_id k (Slot.value (activated p job)) r.jobs (rw other refl) g)
]

report-IsDead :
    (r : Redis) (c : Caller) (rep : Report) (time now : ℕ) (target k : String)
    → IsDead now target (r.jobs k)
    → IsDead now target ((report_job r c rep time).1.jobs k)
unfolding report_job
report-IsDead r c rep time now target k g = elim (Reply-cases (report_decision r c rep)) [
  | inr (x, e) ↦ rw (e, report_job) g
  | inl (ReportDecision.replayed, e) ↦ rw (e, report_job) g
  | inl (finishes job a, e) ↦
      rw (e, report_job)
        (put-IsDead now target c.job_id k (Slot.value (finished_job job)) r.jobs (ground arith) g)
]

cancel-IsDead :
    (r : Redis) (p : CancelParams) (time now : ℕ) (target k : String)
    → IsDead now target (r.jobs k)
    → IsDead now target ((cancel_job r p time).1.jobs k)
unfolding cancel_job
cancel-IsDead r p time now target k g = elim (Reply-cases (cancel_decision r p time)) [
  | inr (x, e) ↦ rw (e, cancel_job) g
  | inl (already_cancelled, e) ↦ rw (e, cancel_job) g
  | inl (already_terminal, e) ↦ rw (e, cancel_job) g
  | inl (cancels_queued job, e) ↦
      rw (e, cancel_job)
        (put-IsDead now target p.job_id k (Slot.value (cancelled_job p time job)) r.jobs
          (ground arith) g)
  | inl (cancels_active job a rep, e) ↦
      rw (e, cancel_job)
        (put-IsDead now target p.job_id k (Slot.value (cancelled_job p time job)) r.jobs
          (ground arith) g)
]

step-IsDead :
    (r : Redis) (c : JobCall) (target k : String) (start later now : ℕ)
    → later < start + fence_ttl_ms
    → is_calm target start later c ≡ true
    → IsUp start later (r.fences target)
    → IsDead now target (r.jobs k)
    → IsDead now target ((step r c).jobs k)
unfolding step
step-IsDead r (create_call job request_key entry_id time) target k start later now b calm up g =
    create-IsDead r job request_key entry_id time now target k
      (IsUp-before (r.fences target) start later time b calm up) g
step-IsDead r (claim_call p time) target k start later now b calm up g =
    claim-IsDead r p time now target k (IsUp-before (r.fences target) start later time b calm up) g
step-IsDead r (start_call c time) target k start later now b calm up g = rw (start-jobs r c time) g
step-IsDead r (report_call c rep time) target k start later now b calm up g =
    report-IsDead r c rep time now target k g
step-IsDead r (cancel_call p time) target k start later now b calm up g =
    cancel-IsDead r p time now target k g
step-IsDead r (record_call c res mode time) target k start later now b calm up g =
    rw (record-jobs r c res mode time) g
step-IsDead r (acquire_call t token clock time) target k start later now b calm up g =
    rw (acquire-jobs r t token clock time) g
step-IsDead r (takeover_call t token clock time) target k start later now b calm up g =
    rw (takeover-jobs r t token clock time) g
step-IsDead r (touch_call t token time) target k start later now b calm up g =
    rw (touch-jobs r t token time) g
step-IsDead r (release_call t) target k start later now b calm up g = unfold release_delete in g
step-IsDead r (prune_call t ids) target k start later now b calm up g = rw (prune-jobs r t ids) g

-- While the fence is up, calm calls keep it up and keep what cannot run from running.
pub run-IsDead :
    (r : Redis) (cs : List JobCall) (target : String) (start later now : ℕ)
    → later < start + fence_ttl_ms
    → All (λ c. is_calm target start later c ≡ true) cs
    → IsUp start later (r.fences target)
    → IsUp start later ((run r cs).fences target)
      × ((k : String) → IsDead now target (r.jobs k) → IsDead now target ((run r cs).jobs k))
unfolding run
run-IsDead r [] target start later now b h up = (up, λ k g. g)
run-IsDead r (c ∷ cs) target start later now b (h, hs) up =
    let up' = step-IsUp r c target start later b (calm-keeps target start later c h) up in
    let (still, keep) = run-IsDead (step r c) cs target start later now b hs up' in
    (still, λ k g. keep k (step-IsDead r c target k start later now b h up g))
