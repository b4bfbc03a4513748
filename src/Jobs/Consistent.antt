-- ===== src/Jobs/Consistent.antt =====
-- The invariant that ties jobs to attempts in the store of services/server/src/jobs/v2-store.ts: a
-- queued job has no attempt, an active job has a live one, a terminal job has an ended one or none.
pub mod Keep
pub mod Calls
pub mod Cancelling
use chief_everything_officer.Base.{
  ℕ, String, Bool, true, false, Option, none, some, ◌≡◌, ◌==◌, ◌&&◌, ◌||◌, is_some, inl, inr, sym,
  eq_iff, Bool-cases,
}
use chief_everything_officer.Base.Redis.{Slot, Keys, put}
use chief_everything_officer.Base.Redis.Laws.{put_self, put_other, put-cases}
use chief_everything_officer.Jobs.Records.{
  Job, JobStatus, preparing, queued, active, Attempt, Redis, is_claimed, is_running, is_finished,
  is_number,
}

abbrev pub is_live : Attempt → Bool
is_live a = is_claimed a.phase || (is_running a.phase && is_number a.started_at_ms)

abbrev pub is_ended : Attempt → Bool
is_ended a = is_finished a.phase && is_some a.report

-- The attempt of a job, by the job's status.
abbrev pub AttemptFits : Slot Attempt → String → JobStatus → Type 0
AttemptFits x k active = (a : Attempt) × (x ≡ Slot.value a) × (a.job_id ≡ k) × (is_live a ≡ true)
AttemptFits x k JobStatus.terminal =
    (a : Attempt) × (x ≡ Slot.value a) × (a.job_id ≡ k) × (is_ended a ≡ true)
AttemptFits x k _ = ⊥

abbrev pub may_be_alone : JobStatus → Bool
may_be_alone queued = true
may_be_alone JobStatus.terminal = true
may_be_alone _ = false

abbrev pub LinkFits : Keys Attempt → String → JobStatus → Option String → Type 0
LinkFits attempts k s none = may_be_alone s ≡ true
LinkFits attempts k s (some id) = AttemptFits (attempts id) k s

abbrev pub JobFits : Keys Attempt → String → Slot Job → Type 0
JobFits attempts k (Slot.value job) =
    (job.job_id ≡ k) × LinkFits attempts k job.status job.latest_attempt_id
JobFits attempts k _ = Unit {0}

-- An attempt stands at its own identifier.
abbrev pub KeyFits : String → Slot Attempt → Type 0
KeyFits k (Slot.value a) = a.attempt_id ≡ k
KeyFits k _ = Unit {0}

unfoldable pub IsConsistent : Redis → Type 0
IsConsistent r =
    ((k : String) → JobFits r.attempts k (r.jobs k)) × ((k : String) → KeyFits k (r.attempts k))

-- A write of an attempt that fits wherever the old one did.
pub put-LinkFits :
    (attempts : Keys Attempt) (key k : String) (v : Slot Attempt) (s : JobStatus)
    (l : Option String)
    → (AttemptFits (attempts key) k s → AttemptFits v k s)
    → LinkFits attempts k s l
    → LinkFits (put key v attempts) k s l
put-LinkFits attempts key k v s none f h = h
put-LinkFits attempts key k v s (some id) f h = elim (put-cases key id v attempts) [
  | inl e ↦ rw e h
  | inr (same, e) ↦ rw e (f (rw (sym same) h))
]

pub put-JobFits :
    (attempts : Keys Attempt) (key k : String) (v : Slot Attempt) (x : Slot Job)
    → ((s : JobStatus) → AttemptFits (attempts key) k s → AttemptFits v k s)
    → JobFits attempts k x
    → JobFits (put key v attempts) k x
put-JobFits attempts key k v (Slot.value job) f h =
    (h.0, put-LinkFits attempts key k v job.status job.latest_attempt_id (f job.status) h.1)
put-JobFits attempts key k v _ f h = tt

-- A write of a job, which fits, over jobs that fit.
pub put_job-JobFits :
    (jobs : Keys Job) (attempts : Keys Attempt) (key k : String) (v : Slot Job)
    → JobFits attempts key v
    → ((k == key) ≡ false → JobFits attempts k (jobs k))
    → JobFits attempts k (put key v jobs k)
put_job-JobFits jobs attempts key k v h f = elim (Bool-cases (k == key)) [
  | inl e ↦ let same = (eq_iff k key).0 e in rw (same, put_self key v jobs) h
  | inr e ↦ rw (put_other key k v jobs e) (f e)
]

pub put-KeyFits :
    (attempts : Keys Attempt) (key k : String) (v : Slot Attempt)
    → KeyFits key v
    → KeyFits k (attempts k)
    → KeyFits k (put key v attempts k)
put-KeyFits attempts key k v h g = elim (put-cases key k v attempts) [
  | inl e ↦ rw e g
  | inr (same, e) ↦ rw (e, same) h
]
