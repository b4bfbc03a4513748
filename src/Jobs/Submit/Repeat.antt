-- ===== src/Jobs/Submit/Repeat.antt =====
-- Submitting a request again, over any calls on the store.
use chief_everything_officer.Base.{
  ℕ, String, false, some, ◌≡◌, refl, sym, ◌∙◌, inl, inr, arith, ◌==◌, List, [], ◌∷◌, eq_refl,
  if◌then◌else◌,
}
use chief_everything_officer.Base.Redis.{Slot}
use chief_everything_officer.Base.Redis.Laws.{put_self}
use chief_everything_officer.Jobs.Records.{Job, Redis, done}
use chief_everything_officer.Jobs.Scripts.Create.{
  existing, make, create_decision, create_job, make_job, queued_job,
}
use chief_everything_officer.Jobs.Machine.{JobMove}
use chief_everything_officer.Jobs.Machine.Calls.{JobCall, step, run}
use chief_everything_officer.Jobs.Machine.Decisions.{Reply-cases}
use chief_everything_officer.Jobs.Machine.Jobs.{step-JobMove}
use chief_everything_officer.Jobs.Machine.Requests.{run-requests}
use chief_everything_officer.Jobs.Submit.{
  request_key, conflict, repeated, refused, is_preparing, match_existing, submit_job,
}

-- The slot holds a job with the business fields of another one, and not a preparing one.
abbrev pub IsSame : Job → Slot Job → Type 0
IsSame job x =
    (old : Job) × (x ≡ Slot.value old)
    × (old.job_id ≡ job.job_id)
    × (old.user_id ≡ job.user_id)
    × (old.workspace_id ≡ job.workspace_id)
    × (old.request_id ≡ job.request_id)
    × (old.request_digest ≡ job.request_digest)
    × (old.stream_entry_id ≡ job.stream_entry_id)
    × (is_preparing old.status ≡ false)

JobMove-IsSame : {x y : Slot Job} (job : Job) → JobMove x y → IsSame job x → IsSame job y
JobMove-IsSame job (JobMove.keeps e) (old, h, i, u, w, q, d, t, p) =
    (old, e ∙ h, i, u, w, q, d, t, p)
JobMove-IsSame job (JobMove.creates j e e' s l) (old, h, i, u, w, q, d, t, p) =
    absurd (ground arith)
JobMove-IsSame job (JobMove.claims j a e s e') (old, h, i, u, w, q, d, t, p) = (
  _,
  e',
  ground arith,
  ground arith,
  ground arith,
  ground arith,
  ground arith,
  ground arith,
  refl,
)
JobMove-IsSame job (JobMove.finishes j e s e') (old, h, i, u, w, q, d, t, p) = (
  _,
  e',
  ground arith,
  ground arith,
  ground arith,
  ground arith,
  ground arith,
  ground arith,
  refl,
)
JobMove-IsSame job (JobMove.cancels j c e s e') (old, h, i, u, w, q, d, t, p) = (
  _,
  e',
  ground arith,
  ground arith,
  ground arith,
  ground arith,
  ground arith,
  ground arith,
  refl,
)

run-IsSame :
    (r : Redis) (cs : List JobCall) (k : String) (job : Job)
    → IsSame job (r.jobs k)
    → IsSame job ((run r cs).jobs k)
unfolding run
run-IsSame r [] k job h = h
run-IsSame r (c ∷ cs) k job h =
    run-IsSame (step r c) cs k job (JobMove-IsSame job (step-JobMove r c k) h)

-- What a successful creation leaves.
create-writes :
    (r : Redis) (job : Job) (key entry_id : String) (now : ℕ)
    → (create_job r job key entry_id now).0 ≡ done make
    → ((create_job r job key entry_id now).1.requests key ≡ Slot.value job.job_id)
      × IsSame (queued_job job entry_id) ((create_job r job key entry_id now).1.jobs job.job_id)
unfolding create_job make_job
create-writes r job key entry_id now h = elim (Reply-cases (create_decision r job key now)) [
  | inr (x, e) ↦ absurd (ground arith)
  | inl (existing id, e) ↦ absurd (ground arith)
  | inl (make, e) ↦
      rw (e, create_job)
        (
          put_self key _ r.requests,
          (
            queued_job job entry_id,
            put_self job.job_id _ r.jobs,
            refl,
            refl,
            refl,
            refl,
            refl,
            refl,
            refl,
          ),
        )
]

-- The script on a request key that names a job.
create-existing :
    (r : Redis) (job : Job) (key entry_id id : String) (now : ℕ)
    → r.requests key ≡ Slot.value id
    → create_job r job key entry_id now ≡ (done (existing id), r)
unfolding create_job create_decision
create-existing r job key entry_id id now h =
    let known : create_decision r job key now ≡ done (existing id) = rw (h, create_decision) in
    rw (known, create_job)

match_existing-eq :
    (old job first : Job) (request_id entry_id : String)
    → old.job_id ≡ first.job_id
    → old.user_id ≡ first.user_id
    → old.workspace_id ≡ first.workspace_id
    → old.request_id ≡ first.request_id
    → old.request_digest ≡ first.request_digest
    → old.stream_entry_id ≡ some entry_id
    → is_preparing old.status ≡ false
    → job.user_id ≡ first.user_id
    → job.workspace_id ≡ first.workspace_id
    → request_id ≡ first.request_id
    → match_existing old job request_id ≡ (
        if first.request_digest == job.request_digest
        then repeated first.job_id (some entry_id)
        else refused conflict)
unfolding match_existing
match_existing-eq old job first request_id entry_id i u w q d t p u' w' q' = rw (
  u,
  w,
  q,
  u',
  w',
  q',
  eq_refl first.user_id,
  eq_refl first.workspace_id,
  eq_refl first.request_id,
  p,
  d,
  i,
  t,
)

submit_existing :
    (s : Redis) (job old : Job) (request_id entry_id id : String) (now : ℕ) (others : List JobCall)
    → s.requests (request_key job.user_id job.workspace_id request_id) ≡ Slot.value id
    → (run s others).jobs id ≡ Slot.value old
    → submit_job s job request_id entry_id now others
      ≡ (match_existing old job request_id, run s others)
unfolding submit_job
submit_existing s job old request_id entry_id id now others h e = rw (
  create-existing s job (request_key job.user_id job.workspace_id request_id) entry_id id now h,
  e,
)

-- A request that has created a job is submitted again, after any calls on the store and with any
-- calls during it, by the same user and workspace: with the same digest it is answered with the first
-- job and its stream entry, with another digest it is refused as a conflict, and it writes nothing.
pub submit_repeat :
    (r : Redis) (first job : Job) (request_id entry_id new_entry_id : String) (now later : ℕ)
    (cs others : List JobCall)
    → (create_job r first (request_key first.user_id first.workspace_id request_id) entry_id now).0
      ≡ done make
    → first.request_id ≡ request_id
    → job.user_id ≡ first.user_id
    → job.workspace_id ≡ first.workspace_id
    → let s =
        run
          (create_job r first
            (request_key first.user_id first.workspace_id request_id)
            entry_id
            now).1
          cs in
      (submit_job s job request_id new_entry_id later others ≡ (
        if first.request_digest == job.request_digest
            then repeated first.job_id (some entry_id)
            else refused conflict,
        run s others,
      ))
submit_repeat r first job request_id entry_id new_entry_id now later cs others h q' u' w' =
    let key = request_key first.user_id first.workspace_id request_id in
    let after = (create_job r first key entry_id now).1 in
    let (named, held) = create-writes r first key entry_id now h in
    let known = run-requests after cs key first.job_id named in
    let (old, e, i, u, w, q, d, t, p) =
      run-IsSame (run after cs) others first.job_id (queued_job first entry_id)
        (run-IsSame after cs first.job_id (queued_job first entry_id) held) in
    let mine : (run after cs).requests (request_key job.user_id job.workspace_id request_id)
        ≡ Slot.value first.job_id =
      rw (u', w') known in
    submit_existing (run after cs) job old request_id new_entry_id first.job_id later others mine e
    ∙ rw (match_existing-eq old job first request_id entry_id i u w q d t p u' w' (sym q'))
