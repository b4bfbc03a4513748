-- ===== src/Jobs/Fenced.antt =====
-- The delete fence of services/server/src/jobs/v2-store.ts over any calls on the store, and what it
-- does to claims and creations on its target.
use chief_everything_officer.Base.{
  ℕ, String, Bool, true, false, not, ◌≡◌, ◌⊎◌, inl, inr, arith, ◌==◌, ◌||◌, ◌+◌, ◌≤◌, ◌<◌, ◌≢◌, sym,
  ◌∙◌, Bool-cases, ltb, leb, List, [], ◌∷◌, All, eq_iff,
}
use chief_everything_officer.Base.Redis.{Slot}
use chief_everything_officer.Base.Redis.Laws.{put_self, put_other}
use chief_everything_officer.Jobs.Records.{Job, Fence, Redis, done, error, ScriptError}
use chief_everything_officer.Jobs.Scripts.{fence_ttl_ms, is_fenced, unexpired_fence}
use chief_everything_officer.Jobs.Scripts.Create.{
  make, existing, create_checks, create_decision, create_job,
}
use chief_everything_officer.Jobs.Scripts.Claim.{ClaimParams, claim_decision, claim_job}
use chief_everything_officer.Jobs.Scripts.Fences.{
  acquire_fence, takeover_fence, touch_fence, release_delete, new_fence, owns,
}
use chief_everything_officer.Jobs.Machine.Calls.{
  JobCall, create_call, claim_call, start_call, report_call, cancel_call, record_call, acquire_call,
  takeover_call, touch_call, release_call, prune_call, step, run,
}
use chief_everything_officer.Jobs.Machine.Decisions.{Reply-cases}
use chief_everything_officer.Jobs.Machine.Fences.{
  create-fences, claim-fences, start-fences, report-fences, cancel-fences, record-fences,
  prune-fences,
}

-- The fence of a target stands for a TTL from `start` on at least, and counts as fresh at `later`.
abbrev pub IsUp : ℕ → ℕ → Slot Fence → Type 0
IsUp start later s =
    (f : Fence) × (s ≡ Slot.value f)
    × (start + fence_ttl_ms ≤ f.expires_at_ms)
    × (later < f.started_ms + fence_ttl_ms)

-- Any call but a takeover or a release of this fence; it is re-armed not before `start`, and another
-- caller asks for it while it has not expired.
abbrev pub keeps_fence : String → ℕ → JobCall → Bool
keeps_fence target start (takeover_call t token clock now) = not (target == t)
keeps_fence target start (release_call t) = not (target == t)
keeps_fence target start (touch_call t token now) = not (target == t) || leb start now
keeps_fence target start (acquire_call t token clock now) =
    not (target == t) || ltb now (start + fence_ttl_ms)
keeps_fence target start _ = true

acquire-other :
    (r : Redis) (t token target : String) (clock now : ℕ)
    → (target == t) ≡ false
    → (acquire_fence r t token clock now).1.fences target ≡ r.fences target
unfolding acquire_fence
acquire-other r t token target clock now h =
    ground (arith, put_other t target (Slot.value (new_fence clock now token)) r.fences h)

takeover-other :
    (r : Redis) (t token target : String) (clock now : ℕ)
    → (target == t) ≡ false
    → (takeover_fence r t token clock now).1.fences target ≡ r.fences target
unfolding takeover_fence
takeover-other r t token target clock now h =
    ground (arith, put_other t target (Slot.value (new_fence clock now token)) r.fences h)

touch-other :
    (r : Redis) (t token target : String) (now : ℕ)
    → (target == t) ≡ false
    → (touch_fence r t token now).1.fences target ≡ r.fences target
unfolding touch_fence
touch-other r t token target now h =
    ground (arith, put_other t target (Slot.value (new_fence now now token)) r.fences h)

acquire-held :
    (r : Redis) (t token : String) (clock now : ℕ) (f : Fence)
    → r.fences t ≡ Slot.value f
    → now < f.expires_at_ms
    → (acquire_fence r t token clock now).1 ≡ r
unfolding acquire_fence
acquire-held r t token clock now f e l = ground arith

acquire-IsUp :
    (r : Redis) (t token target : String) (clock now start later : ℕ)
    → (not (target == t) || ltb now (start + fence_ttl_ms)) ≡ true
    → IsUp start later (r.fences target)
    → IsUp start later ((acquire_fence r t token clock now).1.fences target)
acquire-IsUp r t token target clock now start later g (f, e, x, l) =
    elim (Bool-cases (target == t)) [
      | inl same ↦
          let there : r.fences t ≡ Slot.value f = rw (sym ((eq_iff target t).0 same)) e in
          rw (acquire-held r t token clock now f there (ground arith)) (f, e, x, l)
      | inr other ↦ rw (acquire-other r t token target clock now other) (f, e, x, l)
    ]

touch-mine :
    (r : Redis) (t token : String) (now : ℕ)
    → ((touch_fence r t token now).1.fences t ≡ r.fences t)
      ⊎ ((touch_fence r t token now).1.fences t ≡ Slot.value (new_fence now now token))
unfolding touch_fence
touch-mine r t token now = elim (Bool-cases (owns (unexpired_fence now (r.fences t)) token)) [
  | inl e ↦ inr (rw e (put_self t _ r.fences))
  | inr e ↦ inl (rw e)
]

pub touch-IsUp :
    (r : Redis) (t token target : String) (now start later : ℕ)
    → (not (target == t) || leb start now) ≡ true
    → later < start + fence_ttl_ms
    → IsUp start later (r.fences target)
    → IsUp start later ((touch_fence r t token now).1.fences target)
touch-IsUp r t token target now start later g k (f, e, x, l) = elim (Bool-cases (target == t)) [
  | inl same ↦
      let name = (eq_iff target t).0 same in
      rw name (elim (touch-mine r t token now) [
        | inl e' ↦ (f, e' ∙ (rw (sym name) e), x, l)
        | inr e' ↦ (new_fence now now token, e', ground arith, ground arith)
      ])
  | inr other ↦ rw (touch-other r t token target now other) (f, e, x, l)
]

pub step-IsUp :
    (r : Redis) (c : JobCall) (target : String) (start later : ℕ)
    → later < start + fence_ttl_ms
    → keeps_fence target start c ≡ true
    → IsUp start later (r.fences target)
    → IsUp start later ((step r c).fences target)
unfolding step
step-IsUp r (create_call job request_key entry_id now) target start later k g h =
    rw (create-fences r job request_key entry_id now) h
step-IsUp r (claim_call p now) target start later k g h = rw (claim-fences r p now) h
step-IsUp r (start_call c now) target start later k g h = rw (start-fences r c now) h
step-IsUp r (report_call c rep now) target start later k g h = rw (report-fences r c rep now) h
step-IsUp r (cancel_call p now) target start later k g h = rw (cancel-fences r p now) h
step-IsUp r (record_call c res mode now) target start later k g h =
    rw (record-fences r c res mode now) h
step-IsUp r (acquire_call t token clock now) target start later k g h =
    acquire-IsUp r t token target clock now start later g h
step-IsUp r (takeover_call t token clock now) target start later k g h =
    rw (takeover-other r t token target clock now (ground arith)) h
step-IsUp r (touch_call t token now) target start later k g h =
    touch-IsUp r t token target now start later g k h
step-IsUp r (release_call t) target start later k g h =
    unfold release_delete in (rw (put_other t target Slot.missing r.fences (ground arith)) h)
step-IsUp r (prune_call t ids) target start later k g h = rw (prune-fences r t ids) h

run-IsUp :
    (r : Redis) (cs : List JobCall) (target : String) (start later : ℕ)
    → later < start + fence_ttl_ms
    → All (λ c. keeps_fence target start c ≡ true) cs
    → IsUp start later (r.fences target)
    → IsUp start later ((run r cs).fences target)
unfolding run
run-IsUp r [] target start later k g h = h
run-IsUp r (c ∷ cs) target start later k (g, gs) h =
    run-IsUp (step r c) cs target start later k gs (step-IsUp r c target start later k g h)

pub acquired-IsUp :
    (r : Redis) (target token : String) (clock now later : ℕ)
    → (acquire_fence r target token clock now).0 ≡ true
    → later < clock + fence_ttl_ms
    → IsUp now later ((acquire_fence r target token clock now).1.fences target)
unfolding acquire_fence
acquired-IsUp r target token clock now later h k =
    let f = new_fence clock now token in
    let written : (acquire_fence r target token clock now).1.fences target ≡ Slot.value f =
      ground (arith, put_self target (Slot.value f) r.fences) in
    (f, written, omega arith, k)

pub IsUp-is_fenced :
    (s : Slot Fence) (start later : ℕ)
    → later < start + fence_ttl_ms
    → IsUp start later s
    → is_fenced later s ≡ true
unfolding is_fenced
IsUp-is_fenced s start later k (f, e, x, l) = rw e (ground arith)

-- A fenced claim is an error.
pub fenced-claim :
    (r : Redis) (p : ClaimParams) (now : ℕ)
    → is_fenced now (r.fences p.target_id) ≡ true
    → (x : ScriptError) × (claim_decision r p now ≡ error x)
unfolding claim_decision
fenced-claim r p now h = elim (Reply-cases (claim_decision r p now)) [
  | inr (x, e) ↦ (x, e)
  | inl (d, e) ↦ absurd (ground arith)
]

pub fenced-create :
    (r : Redis) (job : Job) (request_key : String) (now : ℕ)
    → is_fenced now (r.fences job.target_id) ≡ true
    → create_decision r job request_key now ≡ done make
    → ⊥
unfolding create_decision create_checks
fenced-create r job request_key now h k = ground arith

fenced-create_job :
    (r : Redis) (job : Job) (request_key entry_id : String) (now : ℕ)
    → is_fenced now (r.fences job.target_id) ≡ true
    → ((create_job r job request_key entry_id now).0 ≢ done make)
      × ((create_job r job request_key entry_id now).1 ≡ r)
unfolding create_job
fenced-create_job r job request_key entry_id now h =
    elim (Reply-cases (create_decision r job request_key now)) [
      | inr (x, e) ↦ (λ k. ground arith, rw (e, create_job))
      | inl (existing id, e) ↦ (λ k. ground arith, rw (e, create_job))
      | inl (make, e) ↦ absurd (fenced-create r job request_key now h e)
    ]

-- A delete fence that was acquired on a target, within its TTL on the server's and on Redis' clock,
-- and after any calls that neither take over nor release it: a claim on that target is refused, no
-- job is created on it, and neither changes the store.
pub fence_blocks :
    (r : Redis) (target token : String) (clock now later : ℕ) (cs : List JobCall) (p : ClaimParams)
    (job : Job) (request_key entry_id : String)
    → (acquire_fence r target token clock now).0 ≡ true
    → later < clock + fence_ttl_ms
    → later < now + fence_ttl_ms
    → All (λ c. keeps_fence target now c ≡ true) cs
    → p.target_id ≡ target
    → job.target_id ≡ target
    → let s = run (acquire_fence r target token clock now).1 cs in
      ((x : ScriptError) × (claim_job s p later ≡ (error x, s)))
      × ((create_job s job request_key entry_id later).0 ≢ done make)
      × ((create_job s job request_key entry_id later).1 ≡ s)
unfolding claim_job
fence_blocks r target token clock now later cs p job request_key entry_id h k l g same same' =
    let s = run (acquire_fence r target token clock now).1 cs in
    let up =
      run-IsUp (acquire_fence r target token clock now).1 cs target now later l g
        (acquired-IsUp r target token clock now later h k) in
    let fenced = IsUp-is_fenced (s.fences target) now later l up in
    let (x, refused) = fenced-claim s p later (rw same fenced) in
    let (no_job, kept) = fenced-create_job s job request_key entry_id later (rw same' fenced) in
    ((x, rw (refused, claim_job)), no_job, kept)
