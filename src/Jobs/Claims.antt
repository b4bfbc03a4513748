-- ===== src/Jobs/Claims.antt =====
-- Who may hold a job: claims of services/server/src/jobs/v2-assignment-script.ts over any calls on the
-- store.
use chief_everything_officer.Base.{
  ℕ, String, true, some, ◌≡◌, refl, inl, inr, arith, subst, List, holds_text, holds_text-eq, eq_iff,
}
use chief_everything_officer.Base.Redis.{Slot}
use chief_everything_officer.Base.Redis.Laws.{put_self}
use chief_everything_officer.Jobs.Records.{Job, Attempt, Redis, Reply, done, error}
use chief_everything_officer.Jobs.Scripts.Claim.{
  ClaimParams, replayed, expired, claims, ClaimReply, granted, again, new_attempt, activated,
  claim_decision, claim_job, claim_of_job, replay_claim, new_claim, same_claim, grant_claim,
}
use chief_everything_officer.Jobs.Machine.Calls.{JobCall, run}
use chief_everything_officer.Jobs.Machine.Decisions.{Reply-cases, claim-claims, claim-reads}
use chief_everything_officer.Jobs.History.{IsAssigned, IsHeld, run-IsAssigned, run-IsHeld}

-- What a grant has written.
pub grant-writes :
    (r : Redis) (p : ClaimParams) (now : ℕ) {a : Attempt}
    → (claim_job r p now).0 ≡ done (granted a)
    → (job : Job) × (claim_decision r p now ≡ done (claims job))
      × (a ≡ new_attempt p job now)
      × ((claim_job r p now).1 ≡ grant_claim r p job now)
unfolding claim_job
grant-writes r p now h = elim (Reply-cases (claim_decision r p now)) [
  | inr (x, e) ↦ absurd (ground arith)
  | inl (replayed b, e) ↦ absurd (ground arith)
  | inl (expired, e) ↦ absurd (ground arith)
  | inl (claims job, e) ↦ (job, e, ground arith, ground arith)
]

grant-IsAssigned :
    (r : Redis) (p : ClaimParams) (now : ℕ) {a : Attempt}
    → (claim_job r p now).0 ≡ done (granted a)
    → IsAssigned ((claim_job r p now).1.jobs p.job_id) p.attempt_id
unfolding grant_claim
grant-IsAssigned r p now h =
    let (job, e, _, w) = grant-writes r p now h in
    rw w (activated p job, put_self p.job_id _ r.jobs, refl, refl)

grant-IsHeld :
    (r : Redis) (p : ClaimParams) (now : ℕ) {a : Attempt}
    → (claim_job r p now).0 ≡ done (granted a)
    → IsHeld
        ((claim_job r p now).1.attempts p.attempt_id)
        p.attempt_id
        p.device_id
        (some p.claim_token_sha256)
unfolding grant_claim
grant-IsHeld r p now h =
    let (job, e, _, w) = grant-writes r p now h in
    rw w (new_attempt p job now, put_self p.attempt_id _ r.attempts, refl, refl, refl)

-- An assigned job is not granted.
assigned-claims :
    (r : Redis) (q : ClaimParams) (now : ℕ) {id : String} {job : Job}
    → IsAssigned (r.jobs q.job_id) id
    → claim_decision r q now ≡ done (claims job)
    → ⊥
assigned-claims r q now (j, e, s, l) h = ground (arith, claim-claims r q now h)

-- A replayed claim is one of the job's own attempt.
pub claim_of_job-replayed :
    (r : Redis) (q : ClaimParams) (job : Job) (now : ℕ) {b : Attempt}
    → claim_of_job r q job now ≡ done (replayed b)
    → (holds_text job.latest_attempt_id q.attempt_id ≡ true)
      × (r.attempts q.attempt_id ≡ Slot.value b)
      × (same_claim b q ≡ true)
unfolding claim_of_job replay_claim new_claim
claim_of_job-replayed r q job now h = ground arith

-- The identity of the attempt that a claim replays.
same_claim-eq :
    (b : Attempt) (q : ClaimParams)
    → same_claim b q ≡ true
    → (b.attempt_id ≡ q.attempt_id)
      × (b.device_id ≡ q.device_id)
      × (b.claim_token_sha256 ≡ some q.claim_token_sha256)
same_claim-eq b q h = (
  (eq_iff b.attempt_id q.attempt_id).0 (ground arith),
  (eq_iff b.device_id q.device_id).0 (ground arith),
  holds_text-eq b.claim_token_sha256 q.claim_token_sha256 (ground arith),
)

assigned-replayed :
    (r : Redis) (q : ClaimParams) (now : ℕ) {id device token : String} {b : Attempt}
    → IsAssigned (r.jobs q.job_id) id
    → IsHeld (r.attempts id) id device (some token)
    → claim_decision r q now ≡ done (replayed b)
    → (q.attempt_id ≡ id) × (q.device_id ≡ device) × (q.claim_token_sha256 ≡ token)
assigned-replayed r q now {id} {device} {token} {b} (j, e, s, l) (a, there, i, d, t) h =
    let (job, read_job, k) = claim-reads r q now h in
    let (mine, at_key, same) = claim_of_job-replayed r q job now k in
    let (i', d', t') = same_claim-eq b q same in
    let name = holds_text-eq job.latest_attempt_id q.attempt_id mine in
    let same_name : q.attempt_id ≡ id = grind arith in
    let held : r.attempts id ≡ Slot.value b =
      subst (λ k. r.attempts k ≡ Slot.value b) same_name at_key in
    (same_name, grind arith, grind arith)

-- The reply to a claim, after one was granted, gives nothing to anyone but the same claimant.
abbrev pub IsRepeat : ClaimParams → ClaimParams → Reply ClaimReply → Type 0
IsRepeat p q (done (granted b)) = ⊥
IsRepeat p q (done (again b)) =
    (q.attempt_id ≡ p.attempt_id)
    × (q.device_id ≡ p.device_id)
    × (q.claim_token_sha256 ≡ p.claim_token_sha256)
IsRepeat p q (error e) = Unit {0}

-- After a claim of a job was granted, and after any calls on the store, no claim of that job is
-- granted, and the attempt is handed out again only to a claim with the same attempt, device and
-- token.
pub claim_exclusive :
    (r : Redis) (p : ClaimParams) (now : ℕ) (a : Attempt) (cs : List JobCall) (q : ClaimParams)
    (later : ℕ)
    → (claim_job r p now).0 ≡ done (granted a)
    → q.job_id ≡ p.job_id
    → let s = run (claim_job r p now).1 cs in IsRepeat p q (claim_job s q later).0
unfolding claim_job
claim_exclusive r p now a cs q later h same =
    let s = run (claim_job r p now).1 cs in
    let assigned : IsAssigned (s.jobs q.job_id) p.attempt_id =
      rw same (run-IsAssigned (claim_job r p now).1 cs p.job_id (grant-IsAssigned r p now h)) in
    let held = run-IsHeld (claim_job r p now).1 cs p.attempt_id (grant-IsHeld r p now h) in
    elim (Reply-cases (claim_decision s q later)) [
      | inr (x, e) ↦ rw (e, claim_job) tt
      | inl (replayed b, e) ↦ rw (e, claim_job) (assigned-replayed s q later assigned held e)
      | inl (expired, e) ↦ rw (e, claim_job) tt
      | inl (claims job, e) ↦ absurd (assigned-claims s q later assigned e)
    ]
