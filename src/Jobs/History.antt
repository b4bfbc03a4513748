-- ===== src/Jobs/History.antt =====
-- What a sequence of calls on the job store of services/server/src/jobs/v2-store.ts can do to a record
-- that has reached a state: each proof follows the moves of the state machines.
use chief_everything_officer.Base.{
  String, true, false, Option, some, ◌≡◌, refl, ◌∙◌, arith, List, [], ◌∷◌,
}
use chief_everything_officer.Base.Redis.{Slot}
use chief_everything_officer.Jobs.Records.{
  Job, JobStatus, Attempt, JobResult, Redis, is_queued, is_terminal, is_finished,
}
use chief_everything_officer.Jobs.Machine.{JobMove, AttemptMove}
use chief_everything_officer.Jobs.Machine.Calls.{JobCall, step, run}
use chief_everything_officer.Jobs.Machine.Jobs.{step-JobMove}
use chief_everything_officer.Jobs.Machine.Attempts.{step-AttemptMove}

-- The slot holds a job that has been given to the attempt.
abbrev pub IsAssigned : Slot Job → String → Type 0
IsAssigned x id =
    (job : Job) × (x ≡ Slot.value job)
    × (is_queued job.status ≡ false)
    × (job.latest_attempt_id ≡ some id)

-- The slot holds an attempt of this identifier, device and token.
abbrev pub IsHeld : Slot Attempt → String → String → Option String → Type 0
IsHeld x id device token =
    (b : Attempt) × (x ≡ Slot.value b)
    × (b.attempt_id ≡ id)
    × (b.device_id ≡ device)
    × (b.claim_token_sha256 ≡ token)

-- The attempt has ended: only its result may still differ.
abbrev pub IsEnded : Slot Attempt → Attempt → Type 0
IsEnded x a = (res : Option JobResult) × (x ≡ Slot.value (record a { result = res }))

JobMove-IsAssigned :
    {x y : Slot Job} {id : String} → JobMove x y → IsAssigned x id → IsAssigned y id
JobMove-IsAssigned (JobMove.keeps e) (job, h, s, l) = (job, e ∙ h, s, l)
JobMove-IsAssigned (JobMove.creates j e e' s' l') (job, h, s, l) = absurd (ground arith)
JobMove-IsAssigned (JobMove.claims j a e s' e') (job, h, s, l) = absurd (ground arith)
JobMove-IsAssigned (JobMove.finishes j e s' e') (job, h, s, l) =
    (record j { status = JobStatus.terminal }, e', refl, ground arith)
JobMove-IsAssigned (JobMove.cancels j c e s' e') (job, h, s, l) =
    (record j { status = JobStatus.terminal; cancel = some c }, e', refl, ground arith)

JobMove-terminal :
    {x y : Slot Job} (job : Job)
    → JobMove x y
    → x ≡ Slot.value job
    → is_terminal job.status ≡ true
    → y ≡ x
JobMove-terminal job (JobMove.keeps e) h t = e
JobMove-terminal job (JobMove.creates j e e' s l) h t = absurd (ground arith)
JobMove-terminal job (JobMove.claims j a e s e') h t = absurd (ground arith)
JobMove-terminal job (JobMove.finishes j e s e') h t = absurd (ground arith)
JobMove-terminal job (JobMove.cancels j c e s e') h t = absurd (ground arith)

AttemptMove-IsHeld :
    {x y : Slot Attempt} {id device : String} {token : Option String}
    → AttemptMove x y
    → IsHeld x id device token
    → IsHeld y id device token
AttemptMove-IsHeld (AttemptMove.keeps e) (b, h, i, d, t) = (b, e ∙ h, i, d, t)
AttemptMove-IsHeld (AttemptMove.claims a e e' s l) (b, h, i, d, t) = absurd (ground arith)
AttemptMove-IsHeld (AttemptMove.starts a now e s e') (b, h, i, d, t) =
    (_, e', ground arith, ground arith, ground arith)
AttemptMove-IsHeld (AttemptMove.reports a s e l e') (b, h, i, d, t) =
    (_, e', ground arith, ground arith, ground arith)
AttemptMove-IsHeld (AttemptMove.results a res e e') (b, h, i, d, t) =
    (_, e', ground arith, ground arith, ground arith)

AttemptMove-IsEnded :
    {x y : Slot Attempt} (a : Attempt)
    → is_finished a.phase ≡ true
    → AttemptMove x y
    → IsEnded x a
    → IsEnded y a
AttemptMove-IsEnded a t (AttemptMove.keeps e) (res, h) = (res, e ∙ h)
AttemptMove-IsEnded a t (AttemptMove.claims b e e' s l) (res, h) = absurd (ground arith)
AttemptMove-IsEnded a t (AttemptMove.starts b now e s e') (res, h) = absurd (ground arith)
AttemptMove-IsEnded a t (AttemptMove.reports b s e l e') (res, h) = absurd (ground arith)
AttemptMove-IsEnded a t (AttemptMove.results b new e e') (res, h) = (some new, ground arith)

pub run-IsAssigned :
    (r : Redis) (cs : List JobCall) (k : String) {id : String}
    → IsAssigned (r.jobs k) id
    → IsAssigned ((run r cs).jobs k) id
unfolding run
run-IsAssigned r [] k h = h
run-IsAssigned r (c ∷ cs) k h =
    run-IsAssigned (step r c) cs k (JobMove-IsAssigned (step-JobMove r c k) h)

-- A terminal job stays as it is under any calls.
pub run-terminal :
    (r : Redis) (cs : List JobCall) (k : String) (job : Job)
    → r.jobs k ≡ Slot.value job
    → is_terminal job.status ≡ true
    → (run r cs).jobs k ≡ Slot.value job
unfolding run
run-terminal r [] k job h t = h
run-terminal r (c ∷ cs) k job h t =
    run-terminal (step r c) cs k job (JobMove-terminal job (step-JobMove r c k) h t ∙ h) t

pub run-IsHeld :
    (r : Redis) (cs : List JobCall) (k : String) {id device : String} {token : Option String}
    → IsHeld (r.attempts k) id device token
    → IsHeld ((run r cs).attempts k) id device token
unfolding run
run-IsHeld r [] k h = h
run-IsHeld r (c ∷ cs) k h =
    run-IsHeld (step r c) cs k (AttemptMove-IsHeld (step-AttemptMove r c k) h)

-- A terminal attempt keeps everything but its result under any calls.
pub run-IsEnded :
    (r : Redis) (cs : List JobCall) (k : String) (a : Attempt)
    → is_finished a.phase ≡ true
    → IsEnded (r.attempts k) a
    → IsEnded ((run r cs).attempts k) a
unfolding run
run-IsEnded r [] k a t h = h
run-IsEnded r (c ∷ cs) k a t h =
    run-IsEnded (step r c) cs k a t (AttemptMove-IsEnded a t (step-AttemptMove r c k) h)
