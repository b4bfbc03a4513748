-- ===== src/Jobs/Machine/Stream.antt =====
-- The stream of jobs under the calls on the store: entries are only added behind.
use chief_everything_officer.Base.Redis.{Slot}
use chief_everything_officer.Base.{
  ℕ, suc, ◌+◌, ◌≤◌, length, length-append, ◌++◌, ap, arith, String, ◌≡◌, refl, inl, inr, List, [],
  ◌∷◌,
}
use chief_everything_officer.Jobs.Records.{StreamEntry, Job, Redis, Report, JobResult}
use chief_everything_officer.Jobs.Scripts.Create.{
  make, existing, create_decision, create_job, make_job, append_entry,
}
use chief_everything_officer.Jobs.Scripts.Claim.{
  ClaimParams, replayed, expired, claims, claim_decision, claim_job, grant_claim, drop_expired,
}
use chief_everything_officer.Jobs.Scripts.Start.{Caller, StartDecision, start_decision, start_job}
use chief_everything_officer.Jobs.Scripts.Report.{
  ReportDecision, finishes, report_decision, report_job,
}
use chief_everything_officer.Jobs.Scripts.Cancel.{
  CancelParams, already_cancelled, already_terminal, cancels_queued, cancels_active,
  cancel_decision, cancel_job,
}
use chief_everything_officer.Jobs.Scripts.Record.{
  RecordDecision, record_decision, record_job_result,
}
use chief_everything_officer.Jobs.Scripts.Queue.{prune_target_queue}
use chief_everything_officer.Jobs.Scripts.Fences.{
  acquire_fence, takeover_fence, touch_fence, release_delete,
}
use chief_everything_officer.Jobs.Machine.Calls.{
  JobCall, create_call, claim_call, start_call, report_call, cancel_call, record_call, acquire_call,
  takeover_call, touch_call, release_call, prune_call, step, run,
}
use chief_everything_officer.Jobs.Machine.Decisions.{Reply-cases}

append_assoc : {A : Type 0} (xs ys zs : List A) → (xs ++ ys) ++ zs ≡ xs ++ (ys ++ zs)
append_assoc [] ys zs = refl
append_assoc (x ∷ xs) ys zs = ap (λ l. x ∷ l) (append_assoc xs ys zs)

claim-stream : (r : Redis) (p : ClaimParams) (now : ℕ) → (claim_job r p now).1.stream ≡ r.stream
unfolding claim_job grant_claim drop_expired
claim-stream r p now = elim (Reply-cases (claim_decision r p now)) [
  | inr (x, e) ↦ rw (e, claim_job)
  | inl (replayed a, e) ↦ rw (e, claim_job)
  | inl (expired, e) ↦ rw (e, claim_job)
  | inl (claims job, e) ↦ rw (e, claim_job)
]

start-stream : (r : Redis) (c : Caller) (now : ℕ) → (start_job r c now).1.stream ≡ r.stream
unfolding start_job
start-stream r c now = elim (Reply-cases (start_decision r c)) [
  | inr (x, e) ↦ rw (e, start_job)
  | inl (StartDecision.replayed a, e) ↦ rw (e, start_job)
  | inl (StartDecision.starts a, e) ↦ rw (e, start_job)
]

report-stream :
    (r : Redis) (c : Caller) (rep : Report) (now : ℕ) → (report_job r c rep now).1.stream ≡ r.stream
unfolding report_job
report-stream r c rep now = elim (Reply-cases (report_decision r c rep)) [
  | inr (x, e) ↦ rw (e, report_job)
  | inl (ReportDecision.replayed, e) ↦ rw (e, report_job)
  | inl (finishes job a, e) ↦ rw (e, report_job)
]

cancel-stream : (r : Redis) (p : CancelParams) (now : ℕ) → (cancel_job r p now).1.stream ≡ r.stream
unfolding cancel_job
cancel-stream r p now = elim (Reply-cases (cancel_decision r p now)) [
  | inr (x, e) ↦ rw (e, cancel_job)
  | inl (already_cancelled, e) ↦ rw (e, cancel_job)
  | inl (already_terminal, e) ↦ rw (e, cancel_job)
  | inl (cancels_queued job, e) ↦ rw (e, cancel_job)
  | inl (cancels_active job a rep, e) ↦ rw (e, cancel_job)
]

record-stream :
    (r : Redis) (c : Caller) (res : JobResult) (mode : String) (now : ℕ)
    → (record_job_result r c res mode now).1.stream ≡ r.stream
unfolding record_job_result
record-stream r c res mode now = elim (Reply-cases (record_decision r c res mode)) [
  | inr (x, e) ↦ rw (e, record_job_result)
  | inl (RecordDecision.replayed old, e) ↦ rw (e, record_job_result)
  | inl (RecordDecision.records a, e) ↦ rw (e, record_job_result)
]

prune-stream :
    (r : Redis) (target : String) (ids : List String)
    → (prune_target_queue r target ids).1.stream ≡ r.stream
unfolding prune_target_queue
prune-stream r target [] = refl
prune-stream r target (id ∷ ids) = refl

acquire-stream :
    (r : Redis) (target token : String) (clock now : ℕ)
    → (acquire_fence r target token clock now).1.stream ≡ r.stream
unfolding acquire_fence
acquire-stream r target token clock now = ground arith

takeover-stream :
    (r : Redis) (target token : String) (clock now : ℕ)
    → (takeover_fence r target token clock now).1.stream ≡ r.stream
unfolding takeover_fence
takeover-stream r target token clock now = ground arith

pub touch-stream :
    (r : Redis) (target token : String) (now : ℕ)
    → (touch_fence r target token now).1.stream ≡ r.stream
unfolding touch_fence
touch-stream r target token now = ground arith

-- The stream at a later time: the entries, and others behind them.
abbrev pub Holds : List StreamEntry → Redis → Type 0
Holds es r = (more : List StreamEntry) × (r.stream ≡ Slot.value (es ++ more))

append_entry-Holds :
    (e : StreamEntry) (s : Slot (List StreamEntry)) (es more : List StreamEntry)
    → s ≡ Slot.value (es ++ more)
    → (behind : List StreamEntry) × (append_entry e s ≡ Slot.value (es ++ behind))
append_entry-Holds e s es more h =
    (more ++ e ∷ [], rw h (ap Slot.value (append_assoc es more (e ∷ []))))

create-Holds :
    (r : Redis) (job : Job) (request_key entry_id : String) (now : ℕ) (es : List StreamEntry)
    → Holds es r
    → Holds es (create_job r job request_key entry_id now).1
unfolding create_job make_job
create-Holds r job request_key entry_id now es (more, h) =
    elim (Reply-cases (create_decision r job request_key now)) [
      | inr (x, e) ↦ rw (e, create_job) (more, h)
      | inl (existing old, e) ↦ rw (e, create_job) (more, h)
      | inl (make, e) ↦ rw (e, create_job) (append_entry-Holds _ r.stream es more h)
    ]

step-Holds : (r : Redis) (c : JobCall) (es : List StreamEntry) → Holds es r → Holds es (step r c)
unfolding step
step-Holds r (create_call job request_key entry_id now) es h =
    create-Holds r job request_key entry_id now es h
step-Holds r (claim_call p now) es h = rw (claim-stream r p now) h
step-Holds r (start_call c now) es h = rw (start-stream r c now) h
step-Holds r (report_call c rep now) es h = rw (report-stream r c rep now) h
step-Holds r (cancel_call p now) es h = rw (cancel-stream r p now) h
step-Holds r (record_call c res mode now) es h = rw (record-stream r c res mode now) h
step-Holds r (acquire_call t token clock now) es h = rw (acquire-stream r t token clock now) h
step-Holds r (takeover_call t token clock now) es h = rw (takeover-stream r t token clock now) h
step-Holds r (touch_call t token now) es h = rw (touch-stream r t token now) h
step-Holds r (release_call t) es h = unfold release_delete in h
step-Holds r (prune_call t ids) es h = rw (prune-stream r t ids) h

-- What the stream holds, it holds after any calls.
pub run-Holds :
    (r : Redis) (cs : List JobCall) (es : List StreamEntry) → Holds es r → Holds es (run r cs)
unfolding run
run-Holds r [] es h = h
run-Holds r (c ∷ cs) es h = run-Holds (step r c) cs es (step-Holds r c es h)

abbrev pub stream_length : Slot (List StreamEntry) → ℕ
stream_length (Slot.value es) = length es
stream_length _ = 0

append_entry-le :
    (e : StreamEntry) (s : Slot (List StreamEntry))
    → stream_length (append_entry e s) ≤ suc (stream_length s)
append_entry-le e (Slot.value es) = omega (arith, length-append es (e ∷ []))
append_entry-le e Slot.missing = omega arith
append_entry-le e _ = omega arith

create-stream-le :
    (r : Redis) (job : Job) (request_key entry_id : String) (now : ℕ)
    → stream_length (create_job r job request_key entry_id now).1.stream
      ≤ suc (stream_length r.stream)
unfolding create_job make_job
create-stream-le r job request_key entry_id now =
    elim (Reply-cases (create_decision r job request_key now)) [
      | inr (x, e) ↦ rw (e, create_job) (omega arith)
      | inl (existing old, e) ↦ rw (e, create_job) (omega arith)
      | inl (make, e) ↦ rw (e, create_job) (append_entry-le _ r.stream)
    ]

step-stream-le :
    (r : Redis) (c : JobCall) → stream_length (step r c).stream ≤ suc (stream_length r.stream)
unfolding step
step-stream-le r (create_call job request_key entry_id now) =
    create-stream-le r job request_key entry_id now
step-stream-le r (claim_call p now) = rw (claim-stream r p now) (omega arith)
step-stream-le r (start_call c now) = rw (start-stream r c now) (omega arith)
step-stream-le r (report_call c rep now) = rw (report-stream r c rep now) (omega arith)
step-stream-le r (cancel_call p now) = rw (cancel-stream r p now) (omega arith)
step-stream-le r (record_call c res mode now) = rw (record-stream r c res mode now) (omega arith)
step-stream-le r (acquire_call t token clock now) =
    rw (acquire-stream r t token clock now) (omega arith)
step-stream-le r (takeover_call t token clock now) =
    rw (takeover-stream r t token clock now) (omega arith)
step-stream-le r (touch_call t token now) = rw (touch-stream r t token now) (omega arith)
step-stream-le r (release_call t) = unfold release_delete in (omega arith)
step-stream-le r (prune_call t ids) = rw (prune-stream r t ids) (omega arith)

-- A call adds at most one entry.
pub run-stream-le :
    (r : Redis) (cs : List JobCall)
    → stream_length (run r cs).stream ≤ stream_length r.stream + length cs
unfolding run
run-stream-le r [] = omega arith
run-stream-le r (c ∷ cs) = omega (arith, run-stream-le (step r c) cs, step-stream-le r c)
