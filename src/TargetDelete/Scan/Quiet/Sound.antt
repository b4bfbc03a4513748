-- ===== src/TargetDelete/Scan/Quiet/Sound.antt =====
-- A scanned batch with nothing blocked, while others call the store.
use chief_everything_officer.Base.{
  some_inj, ℕ, suc, String, Bool, true, false, Option, none, some, ◌≡◌, refl, ◌∙◌, ap, ◌⊎◌, inl,
  inr, arith, ◌==◌, ◌+◌, ◌<◌, leb, List, [], ◌∷◌, ◌++◌, length, length-append, All, Bool-cases,
  if◌then◌else◌,
}
use chief_everything_officer.Base.Redis.{Slot}
use chief_everything_officer.Jobs.Records.{
  Job, JobStatus, preparing, queued, active, Attempt, StreamEntry, is_running,
}
use chief_everything_officer.Jobs.Scripts.{fence_ttl_ms}
use chief_everything_officer.Jobs.Scripts.Claim.{is_past_deadline}
use chief_everything_officer.Jobs.Fenced.{IsUp}
use chief_everything_officer.TargetDelete.World.{Gap, World, wait}
use chief_everything_officer.TargetDelete.Scan.{
  Tally, Step, counted, thrown, blocked, add_claimed, add_running, count_attempt, count_active,
  count_status, count_job, is_of_target, scan_entry, scan_batch, step_of,
}
use chief_everything_officer.TargetDelete.Scan.Quiet.{is_calm, is_dead, IsDead, run-IsDead}

-- The calls of a gap are calm, and it does not end before `start`.
abbrev pub GapIsCalm : String → ℕ → ℕ → Gap → Type 0
GapIsCalm target start later g =
    All (λ c. is_calm target start later c ≡ true) g.calls × (leb start g.now_ms ≡ true)

-- The fence is up, and the gaps that are to come are calm.
abbrev pub IsCalm : String → ℕ → ℕ → World → Type 0
IsCalm target start later w =
    IsUp start later (w.store.fences target)
    × (leb start w.now_ms ≡ true)
    × All (λ g. GapIsCalm target start later g) w.gaps

-- From one state to another, what cannot run goes on not to run.
abbrev pub StaysDead : ℕ → String → World → World → Type 0
StaysDead now target w v =
    (k : String) → IsDead now target (w.store.jobs k) → IsDead now target (v.store.jobs k)

wait_gap-IsCalm :
    (target : String) (start later now : ℕ) (w : World) (gaps : List Gap)
    → w.gaps ≡ gaps
    → later < start + fence_ttl_ms
    → IsUp start later (w.store.fences target)
    → leb start w.now_ms ≡ true
    → All (λ g. GapIsCalm target start later g) gaps
    → IsCalm target start later (wait w) × StaysDead now target w (wait w)
unfolding wait
wait_gap-IsCalm target start later now w [] e b up m h = rw e ((up, m, h), λ k g. g)
wait_gap-IsCalm target start later now w (g ∷ gs) e b up m ((h, m'), hs) =
    let (up', keep) = run-IsDead w.store g.calls target start later now b h up in
    rw e ((up', m', hs), keep)

pub wait-IsCalm :
    (target : String) (start later now : ℕ) (w : World)
    → later < start + fence_ttl_ms
    → IsCalm target start later w
    → IsCalm target start later (wait w) × StaysDead now target w (wait w)
wait-IsCalm target start later now w b (up, m, h) =
    wait_gap-IsCalm target start later now w w.gaps refl b up m h

length-push : (xs : List String) (x : String) → length (xs ++ x ∷ []) ≡ suc (length xs)
length-push xs x = omega (arith, length-append xs (x ∷ []))

claimed-blocked : (job : Job) (t : Tally) → blocked (add_claimed job t) ≡ 0 → ⊥
claimed-blocked job t h = omega (arith, length-push t.claimed_ids job.job_id)

running-blocked : (job : Job) (t : Tally) → blocked (add_running job t) ≡ 0 → ⊥
running-blocked job t h = omega (arith, length-push t.running_ids job.job_id)

pub counted-tally : {t t' : Tally} {w v : World} → counted t w ≡ counted t' v → t ≡ t'
counted-tally {t} h = ap (λ s. elim s as (λ _. Tally) [ counted x _ ↦ x | thrown _ ↦ t ]) h

pub counted-world : {t t' : Tally} {w v : World} → counted t w ≡ counted t' v → w ≡ v
counted-world {t} {t'} {w} h = ap (λ s. elim s as (λ _. World) [ counted _ x ↦ x | thrown x ↦ x ]) h

attempt-blocked :
    (job : Job) (x : Slot Attempt) (t t' : Tally)
    → count_attempt job x t ≡ some t'
    → blocked t' ≡ 0
    → ⊥
attempt-blocked job Slot.missing t t' h b = claimed-blocked job t (ap blocked (some_inj h) ∙ b)
attempt-blocked job (Slot.value a) t t' h b = elim (Bool-cases (is_running a.phase)) [
  | inl r ↦ running-blocked job t (ap blocked (some_inj (rw r at h)) ∙ b)
  | inr r ↦ claimed-blocked job t (ap blocked (some_inj (rw r at h)) ∙ b)
]
attempt-blocked job _ t t' h b = absurd (ground arith)

step_of-blocked :
    (o : Option Tally) (t' : Tally) (w v : World)
    → step_of o w ≡ counted t' v
    → ((t : Tally) → o ≡ some t → blocked t ≡ 0 → ⊥)
    → blocked t' ≡ 0
    → ⊥
step_of-blocked none t' w v h f b = absurd (ground arith)
step_of-blocked (some t) t' w v h f b = f t refl (ap blocked (counted-tally h) ∙ b)

active-blocked :
    (job : Job) (l : Option String) (t t' : Tally) (w v : World)
    → count_active job l t w ≡ counted t' v
    → blocked t' ≡ 0
    → ⊥
active-blocked job none t t' w v h b = claimed-blocked job t (ap blocked (counted-tally h) ∙ b)
active-blocked job (some id) t t' w v h b = elim (Bool-cases (id == "")) [
  | inl r ↦ claimed-blocked job t (ap blocked (counted-tally (rw r at h)) ∙ b)
  | inr r ↦
      step_of-blocked _ t' (wait w) v (rw r at h)
        (λ x. attempt-blocked job ((wait w).store.attempts id) t x) b
]

queued-dead :
    (now : ℕ) (job : Job) (t : Tally) (p : Bool)
    → is_past_deadline job now ≡ p
    → job.status ≡ queued
    → blocked (
        if p
        then record t { expired_ids = t.expired_ids ++ job.job_id ∷ [] }
        else record t { queued_ids = t.queued_ids ++ job.job_id ∷ [] })
      ≡ 0
    → (is_dead now job ≡ true) × (blocked t ≡ 0)
queued-dead now job t true p e b = (rw e p, b)
queued-dead now job t false p e b = absurd (omega (arith, length-push t.queued_ids job.job_id))

status-dead :
    (now : ℕ) (job : Job) (s : JobStatus) (t t' : Tally) (w v : World)
    → job.status ≡ s
    → count_status now job s t w ≡ counted t' v
    → blocked t' ≡ 0
    → (is_dead now job ≡ true) × (blocked t ≡ 0) × (w ≡ v)
status-dead now job preparing t t' w v e h b =
    let zero_now = ap blocked (counted-tally h) ∙ b in
    absurd (omega (arith, length-push t.preparing_ids job.job_id))
status-dead now job queued t t' w v e h b =
    let (dead, none_before) =
      queued-dead now job t (is_past_deadline job now) refl e (ap blocked (counted-tally h) ∙ b) in
    (dead, none_before, counted-world h)
status-dead now job active t t' w v e h b =
    absurd (active-blocked job job.latest_attempt_id t t' w v h b)
status-dead now job JobStatus.terminal t t' w v e h b =
    (rw e refl, ap blocked (counted-tally h) ∙ b, counted-world h)

pub job-IsDead :
    (now : ℕ) (target : String) (x : Slot Job) (t t' : Tally) (w v : World)
    → count_job now x t w ≡ counted t' v
    → blocked t' ≡ 0
    → IsDead now target x × (blocked t ≡ 0) × (w ≡ v)
job-IsDead now target Slot.missing t t' w v h b =
    (tt, ap blocked (counted-tally h) ∙ b, counted-world h)
job-IsDead now target (Slot.value job) t t' w v h b =
    let (dead, before, same) = status-dead now job job.status t t' w v refl h b in
    (ground arith, before, same)
job-IsDead now target _ t t' w v h b = absurd (ground arith)

entry-IsDead :
    (now : ℕ) (target : String) (start later : ℕ) (e : StreamEntry) (t t' : Tally) (w v : World)
    → later < start + fence_ttl_ms
    → IsCalm target start later w
    → scan_entry now target e t w ≡ counted t' v
    → blocked t' ≡ 0
    → IsCalm target start later v
      × StaysDead now target w v
      × ((is_of_target target e ≡ false) ⊎ IsDead now target (v.store.jobs e.job_id))
      × (blocked t ≡ 0)
unfolding scan_entry
entry-IsDead now target start later e t t' w v b calm h z =
    elim (Bool-cases (is_of_target target e)) [
      | inl r ↦
          let read_it : count_job now ((wait w).store.jobs e.job_id) t (wait w) ≡ counted t' v =
            rw r at h in
          let (dead, before, same) =
            job-IsDead now target ((wait w).store.jobs e.job_id) t t' (wait w) v read_it z in
          let (calm', keep) = wait-IsCalm target start later now w b calm in
          rw⁻¹ same (calm', keep, inr dead, before)
      | inr r ↦
          let passed : counted t w ≡ counted t' v = rw r at h in
          rw⁻¹ (counted-world passed)
            (calm, (λ k g. g), inl r, ap blocked (counted-tally passed) ∙ z)
    ]

-- To split on a step and keep the equation.
pub Step-cases :
    (s : Step) → ((t : Tally) × (v : World) × (s ≡ counted t v)) ⊎ ((v : World) × (s ≡ thrown v))
Step-cases (counted t v) = inl (t, v, refl)
Step-cases (thrown v) = inr (v, refl)

pub StaysDead-entries :
    (now : ℕ) (target : String) (w v : World) (e : StreamEntry)
    → StaysDead now target w v
    → (is_of_target target e ≡ false) ⊎ IsDead now target (w.store.jobs e.job_id)
    → (is_of_target target e ≡ false) ⊎ IsDead now target (v.store.jobs e.job_id)
StaysDead-entries now target w v e keep (inl n) = inl n
StaysDead-entries now target w v e keep (inr d) = inr (keep e.job_id d)

entry-blocked :
    (now : ℕ) (target : String) (e : StreamEntry) (t t' : Tally) (w v : World)
    → scan_entry now target e t w ≡ counted t' v
    → blocked t' ≡ 0
    → blocked t ≡ 0
unfolding scan_entry
entry-blocked now target e t t' w v h z = elim (Bool-cases (is_of_target target e)) [
  | inl r ↦
      let read_it : count_job now ((wait w).store.jobs e.job_id) t (wait w) ≡ counted t' v =
        rw r at h in
      let (_, before, _) =
        job-IsDead now target ((wait w).store.jobs e.job_id) t t' (wait w) v read_it z in
      before
  | inr r ↦
      let passed : counted t w ≡ counted t' v = rw r at h in ap blocked (counted-tally passed) ∙ z
]

-- Nothing is blocked before where nothing is blocked after.
pub batch-blocked :
    (now : ℕ) (target : String) (es : List StreamEntry) (t t' : Tally) (w v : World)
    → scan_batch now target es t w ≡ counted t' v
    → blocked t' ≡ 0
    → blocked t ≡ 0
unfolding scan_batch
batch-blocked now target [] t t' w v h z = ap blocked (counted-tally h) ∙ z
batch-blocked now target (e ∷ es) t t' w v h z = elim (Step-cases (scan_entry now target e t w)) [
  | inl (t1, u, k) ↦
      let rest : scan_batch now target es t1 u ≡ counted t' v = ground arith in
      entry-blocked now target e t t1 w u k (batch-blocked now target es t1 t' u v rest z)
  | inr (u, k) ↦ absurd (ground arith)
]

-- What a scan of some entries leaves, when nothing is blocked.
abbrev pub IsQuiet : ℕ → String → ℕ → ℕ → List StreamEntry → World → World → Type 0
IsQuiet now target start later es w v =
    IsCalm target start later v
    × StaysDead now target w v
    × All (λ e. (is_of_target target e ≡ false) ⊎ IsDead now target (v.store.jobs e.job_id)) es

pub batch-IsQuiet :
    (now : ℕ) (target : String) (start later : ℕ) (es : List StreamEntry) (t t' : Tally)
    (w v : World)
    → later < start + fence_ttl_ms
    → scan_batch now target es t w ≡ counted t' v
    → blocked t' ≡ 0
    → IsCalm target start later w
    → IsQuiet now target start later es w v
unfolding scan_batch
batch-IsQuiet now target start later [] t t' w v b h z calm =
    rw⁻¹ (counted-world h) (calm, (λ k g. g), tt)
batch-IsQuiet now target start later (e ∷ es) t t' w v b h z calm =
    elim (Step-cases (scan_entry now target e t w)) [
      | inl (t1, u, k) ↦
          let rest : scan_batch now target es t1 u ≡ counted t' v = ground arith in
          let none_blocked = batch-blocked now target es t1 t' u v rest z in
          let (calm1, keep1, first, _) =
            entry-IsDead now target start later e t t1 w u b calm k none_blocked in
          let (calm2, keep2, others) =
            batch-IsQuiet now target start later es t1 t' u v b rest z calm1 in
          (
            calm2,
            λ i g. keep2 i (keep1 i g),
            (StaysDead-entries now target u v e keep2 first, others),
          )
      | inr (u, k) ↦ absurd (ground arith)
    ]
