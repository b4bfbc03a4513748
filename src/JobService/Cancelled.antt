-- ===== src/JobService/Cancelled.antt =====
-- What cancelJobForDevice of services/server/src/jobs/v2-service.ts does to the job store.
use chief_everything_officer.Base.{
  ℕ, zero, suc, String, true, Option, none, some, ◌≡◌, ◌≢◌, refl, ap, ◌∙◌, inl, inr, Bool-cases,
  ◌==◌,
}
use chief_everything_officer.Base.Redis.{Slot}
use chief_everything_officer.Base.Redis.Laws.{put_self}
use chief_everything_officer.OAuth.Scope.{has}
use chief_everything_officer.Jobs.Records.{
  Job, JobStatus, Attempt, Redis, Reply, done, error, CancelRecord, cancel_race, job_not_found,
}
use chief_everything_officer.Jobs.Scripts.Cancel.{
  CancelParams, CancelReply, cancelled, replayed, no_change, CancelDecision, cancels_queued,
  cancels_active, cancel_decision, cancel_commit, cancelled_job, cancel_job,
}
use chief_everything_officer.TargetDelete.World.{World, wait}
use chief_everything_officer.JobService.{
  HostJobState, terminal, cancels, CancelAnswer, result, CancelRequest, cancel_params, attempt_in,
  cancel_state, cancel_read, cancel_found, cancel_round, cancel_rounds, cancel_job_for_device,
  derive_host_job_state, replied, or_empty, job_cancel_max_race_retries, terminal_action,
  job_execution_status_view,
}

-- Only calls of others ran, in so many gaps.
abbrev pub wait_times : ℕ → World → World
wait_times zero w = w
wait_times (suc n) w = wait_times n (wait w)

wait_more : (m n : ℕ) (w : World) → (k : ℕ) × (wait_times n (wait_times m w) ≡ wait_times k w)
wait_more zero n w = (n, refl)
wait_more (suc m) n w = let (k, e) = wait_more m n (wait w) in (suc k, e)

-- The job under the identifier is terminal, and was cancelled by the device.
pub record IsCancelledBy (device : String) (job_id : String) (r : Redis) : Type 0 where
  pub job : Job
  pub stands : r.jobs job_id ≡ Slot.value job
  pub is_over : job.status ≡ JobStatus.terminal
  pub record_of : CancelRecord
  pub recorded : job.cancel ≡ some record_of
  pub by_device : record_of.requested_by_device_id ≡ device

-- A run of the script: it wrote the cancelled job, or nothing.
data Scripted (r : Redis) (p : CancelParams) (o : Reply CancelReply × Redis) : Type 0 where
  wrote : o.0 ≡ done cancelled → IsCancelledBy p.device_id p.job_id o.1 → Scripted r p o
  idle : o.0 ≢ done cancelled → o.1 ≡ r → Scripted r p o

commit-Scripted :
    (r : Redis) (p : CancelParams) (now : ℕ) (d : Reply CancelDecision)
    → Scripted r p (cancel_commit r p now d)
commit-Scripted r p now (error e) = idle (λ h. cc (h)) refl
commit-Scripted r p now (done CancelDecision.already_cancelled) = idle (λ h. cc (h)) refl
commit-Scripted r p now (done CancelDecision.already_terminal) = idle (λ h. cc (h)) refl
commit-Scripted r p now (done (cancels_queued job)) = wrote refl (record {
  job = cancelled_job p now job;
  stands = put_self p.job_id (Slot.value (cancelled_job p now job)) r.jobs;
  is_over = refl;
  record_of = record {
    cancelled_at_ms = now;
    requested_by_device_id = p.device_id;
    reason = p.reason;
  };
  recorded = refl;
  by_device = refl;
})
commit-Scripted r p now (done (cancels_active job a rep)) = wrote refl (record {
  job = cancelled_job p now job;
  stands = put_self p.job_id (Slot.value (cancelled_job p now job)) r.jobs;
  is_over = refl;
  record_of = record {
    cancelled_at_ms = now;
    requested_by_device_id = p.device_id;
    reason = p.reason;
  };
  recorded = refl;
  by_device = refl;
})

-- The end of a round or of the loop, from a world on: the device cancelled the job that it had read
-- under the identifier that was asked for, of a target that it is bound to, or only calls of others ran.
pub data Ended {A : Type 0} (said : HostJobState → A) (r : CancelRequest) (w : World)
    (o : World × A) : Type 0 where
  cancelled_now :
      (state : HostJobState) (job : Job) (n : ℕ)
      → (wait_times n w).store.jobs r.job_id ≡ Slot.value job
      → o.1 ≡ said state
      → has r.bound_targets job.target_id ≡ true
      → IsCancelledBy r.device_id job.job_id o.0.store
      → Ended said r w o
  left :
      (n : ℕ)
      → o.0 ≡ wait_times n w
      → ((state : HostJobState) → o.1 ≢ said state)
      → Ended said r w o

abbrev says : HostJobState → Option CancelAnswer
says state = some (result state cancels)

replied-ne :
    (state : HostJobState) (x : Reply CancelReply)
    → x ≢ done cancelled
    → (other : HostJobState) → replied state x ≢ says other
replied-ne state (done cancelled) h other e = h refl
replied-ne state (done replayed) h other e = cc (e)
replied-ne state (done no_change) h other e = cc (e)
replied-ne state (error cancel_race) h other e = cc (e)
replied-ne state (error job_not_found) h other e = cc (e)
replied-ne state (error x) h other e = cc (e)

-- A round from a later world, where only calls of others ran in between.
later :
    {A : Type 0} {said : HostJobState → A} (r : CancelRequest) (w : World) (m : ℕ) (v : World)
    (o : World × A)
    → v ≡ wait_times m w
    → Ended said r v o
    → Ended said r w o
later r w m v o e (cancelled_now state job n there says bound c) =
    let (total, sum) = wait_more m n w in
    let at_total : (wait_times total w).store.jobs r.job_id ≡ Slot.value job =
      rw⁻¹ sum (rw⁻¹ e there) in
    cancelled_now state job total at_total says bound c
later r w m v o e (left n k ne) =
    let (total, sum) = wait_more m n w in left total (k ∙ (rw e sum)) ne

view-ne :
    (o : Option String) (other : HostJobState)
    → some (result terminal (terminal_action o)) ≢ says other
view-ne none other e = cc (e)
view-ne (some s) other e = elim (Bool-cases (s == "CANCELLED")) [
  | inl k ↦ cc (rw k at e)
  | inr k ↦ cc (rw k at e)
]

-- After the job was read, of a target that the device is bound to.
module _ (r : CancelRequest) (start : World) (job : Job) (n : ℕ)
    (there : (wait_times n start).store.jobs r.job_id ≡ Slot.value job)
    (bound : has r.bound_targets job.target_id ≡ true) where
  live-Ended :
      (m : ℕ) (w : World) (state : HostJobState)
      → w ≡ wait_times m start
      → let v = wait w in
        let answer = cancel_job v.store (cancel_params r job) v.now_ms in
        Ended says r start (record v { store = answer.1 }, replied state answer.0)
  unfolding cancel_job
  live-Ended m w state e =
      let v = wait w in
      let p = cancel_params r job in
      elim (commit-Scripted v.store p v.now_ms (cancel_decision v.store p v.now_ms)) [
        | wrote k c ↦ cancelled_now state job n there (rw k refl) bound c
        | idle ne same ↦
            later r start m w _ e
              (left 1 (ap (λ (x : Redis). record v { store = x }) same) (replied-ne state _ ne))
      ]

  state-Ended :
      (m : ℕ) (attempt : Option Attempt) (w : World) (state : Option HostJobState)
      → w ≡ wait_times m start
      → Ended says r start (cancel_state r job attempt w state)
  state-Ended m attempt w none e = left m e (λ s k. cc (k))
  state-Ended m attempt w (some terminal) e =
      left m e (view-ne (job_execution_status_view job attempt))
  state-Ended m attempt w (some HostJobState.queued) e = live-Ended m w _ e
  state-Ended m attempt w (some HostJobState.expired) e = live-Ended m w _ e
  state-Ended m attempt w (some HostJobState.claimed) e = live-Ended m w _ e
  state-Ended m attempt w (some HostJobState.running) e = live-Ended m w _ e

  read-Ended :
      (clock m : ℕ) (w : World) (read : Option (Option Attempt))
      → w ≡ wait_times m start
      → Ended says r start (cancel_read r clock job (w, read))
  read-Ended clock m w none e = left m e (λ s k. cc (k))
  read-Ended clock m w (some attempt) e =
      state-Ended m attempt w (derive_host_job_state job attempt clock) e

found-Ended :
    (r : CancelRequest) (clock : ℕ) (w : World) (slot : Slot Job)
    → w.store.jobs r.job_id ≡ slot
    → Ended says r w (cancel_found r clock w slot)
found-Ended r clock w Slot.missing there = left 0 refl (λ s e. cc (e))
found-Ended r clock w Slot.wrong_type there = left 0 refl (λ s e. cc (e))
found-Ended r clock w Slot.malformed there = left 0 refl (λ s e. cc (e))
found-Ended r clock w (Slot.value job) there =
    elim (Bool-cases (has r.bound_targets job.target_id)) [
      | inr b ↦ rw b (left 0 refl (λ s e. cc (e)))
      | inl b ↦ elim (Bool-cases (or_empty job.latest_attempt_id == "")) [
        | inl e ↦ rw (b, e) (read-Ended r w job 0 there b clock 0 w (some none) refl)
        | inr e ↦
            rw (b, e)
              (read-Ended r w job 0 there b clock 1 (wait w)
                (attempt_in ((wait w).store.attempts (or_empty job.latest_attempt_id))) refl)
      ]
    ]

round-Ended : (r : CancelRequest) (clock : ℕ) (w : World) → Ended says r w (cancel_round r clock w)
unfolding cancel_round
round-Ended r clock w =
    later r w 1 (wait w) _ refl (found-Ended r clock (wait w) ((wait w).store.jobs r.job_id) refl)

answer_inj : {a b : CancelAnswer} → some a ≡ some b → a ≡ b
answer_inj e = cc

abbrev pub answers : HostJobState → CancelAnswer
answers state = result state cancels

loop-Ended :
    (n : ℕ) (r : CancelRequest) (w : World) (o : World × Option CancelAnswer)
    → Ended says r w o
    → ((v : World) → Ended answers r v (cancel_rounds n r v))
    → Ended answers r w (elim o.1 [ some answer ↦ (o.0, answer) | none ↦ cancel_rounds n r o.0 ])
loop-Ended n r w (v, some a) (cancelled_now state job m there e bound c) f =
    cancelled_now state job m there (answer_inj e) bound c
loop-Ended n r w (v, some a) (left m e ne) f = left m e (λ state k. ne state (ap some k))
loop-Ended n r w (v, none) (cancelled_now state job m there e bound c) f = absurd (cc (e))
loop-Ended n r w (v, none) (left m e ne) f = later r w m v _ e (f v)

rounds-Ended : (n : ℕ) (r : CancelRequest) (w : World) → Ended answers r w (cancel_rounds n r w)
unfolding cancel_rounds
rounds-Ended zero r w = left 0 refl (λ s e. cc (e))
rounds-Ended (suc n) r w =
    loop-Ended n r w (cancel_round r (r.clock n) w) (round-Ended r (r.clock n) w)
      (λ v. rounds-Ended n r v)

-- With calls of others at every `await`: when cancelJobForDevice answers that it cancelled, it had read
-- a job under the identifier that was asked for, of a target that the device is bound to, and under
-- that job's identifier a job stands now as terminal with the cancel record of the device; with every other answer, also after the last retry, it wrote nothing: only the
-- calls of others ran.
pub cancel_for_device-Ended :
    (r : CancelRequest) (w : World) → Ended answers r w (cancel_job_for_device r w)
unfolding cancel_job_for_device
cancel_for_device-Ended r w = rounds-Ended job_cancel_max_race_retries r w
