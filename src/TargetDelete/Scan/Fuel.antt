-- ===== src/TargetDelete/Scan/Fuel.antt =====
-- The fuel of the scan of services/server/src/jobs/target-delete.ts.
use chief_everything_officer.Base.{
  some_inj, ℕ, zero, suc, String, false, Option, none, some, ◌≡◌, ◌≢◌, refl, sym, ◌∙◌, ◌⊎◌, inl,
  inr, arith, ◌==◌, ◌+◌, ◌*◌, ◌<◌, ◌≤◌, ltb, nat_eq, List, [], ◌∷◌, length, Bool-cases,
  Option-cases,
}
use chief_everything_officer.Base.Redis.{Slot}
use chief_everything_officer.Jobs.Records.{Job, JobStatus, preparing, queued, active, StreamEntry}
use chief_everything_officer.Jobs.Machine.Stream.{stream_length, run-stream-le, touch-stream}
use chief_everything_officer.TargetDelete.World.{Gap, World, wait, drop, take}
use chief_everything_officer.TargetDelete.World.Batches.{length-take-le, full-le}
use chief_everything_officer.TargetDelete.Scan.{
  Tally, Step, counted, thrown, count_attempt, count_active, count_status, count_job, is_of_target,
  scan_entry, scan_batch, step_of, batch_size, batch_of, touch, ScanEnd, finished, failed,
  unfinished, scan_loop, verify_target_quiescence, verify_end, empty_tally, prune_expired,
}

-- The calls that are to come.
abbrev pub calls_left : List Gap → ℕ
calls_left [] = 0
calls_left (g ∷ gs) = length g.calls + calls_left gs

-- The entries that the stream has and may still get.
abbrev pub entries_at_most : World → ℕ
entries_at_most w = stream_length w.store.stream + calls_left w.gaps

abbrev world_of : Step → World
world_of (counted t w) = w
world_of (thrown w) = w

wait_gap-le :
    (w : World) (gaps : List Gap) → w.gaps ≡ gaps → entries_at_most (wait w) ≤ entries_at_most w
unfolding wait
wait_gap-le w [] e = rw e (omega arith)
wait_gap-le w (g ∷ gs) e = rw e (omega (arith, run-stream-le w.store g.calls))

wait-le : (w : World) → entries_at_most (wait w) ≤ entries_at_most w
wait-le w = wait_gap-le w w.gaps refl

step_of-le : (o : Option Tally) (w : World) → world_of (step_of o w) ≡ w
step_of-le none w = refl
step_of-le (some t) w = refl

active-le :
    (job : Job) (l : Option String) (t : Tally) (w : World)
    → entries_at_most (world_of (count_active job l t w)) ≤ entries_at_most w
active-le job none t w = omega arith
active-le job (some id) t w = elim (Bool-cases (id == "")) [
  | inl r ↦ rw r (omega arith)
  | inr r ↦
      rw (r, step_of-le (count_attempt job ((wait w).store.attempts id) t) (wait w)) (wait-le w)
]

status-le :
    (now : ℕ) (job : Job) (s : JobStatus) (t : Tally) (w : World)
    → entries_at_most (world_of (count_status now job s t w)) ≤ entries_at_most w
status-le now job preparing t w = omega arith
status-le now job queued t w = omega arith
status-le now job active t w = active-le job job.latest_attempt_id t w
status-le now job JobStatus.terminal t w = omega arith

job-le :
    (now : ℕ) (x : Slot Job) (t : Tally) (w : World)
    → entries_at_most (world_of (count_job now x t w)) ≤ entries_at_most w
job-le now Slot.missing t w = omega arith
job-le now (Slot.value job) t w = status-le now job job.status t w
job-le now Slot.malformed t w = omega arith
job-le now Slot.wrong_type t w = omega arith

entry-le :
    (now : ℕ) (target : String) (e : StreamEntry) (t : Tally) (w : World)
    → entries_at_most (world_of (scan_entry now target e t w)) ≤ entries_at_most w
unfolding scan_entry
entry-le now target e t w = elim (Bool-cases (is_of_target target e)) [
  | inl r ↦ rw r (omega (arith, job-le now ((wait w).store.jobs e.job_id) t (wait w), wait-le w))
  | inr r ↦ rw r (omega arith)
]

after_entry-le :
    (now : ℕ) (target : String) (es : List StreamEntry) (s : Step)
    → ((t : Tally) (w : World)
        → entries_at_most (world_of (scan_batch now target es t w)) ≤ entries_at_most w)
    → entries_at_most (
        world_of (elim s as (λ _. Step) [
          | thrown v ↦ thrown v
          | counted t v ↦ scan_batch now target es t v
        ]))
      ≤ entries_at_most (world_of s)
after_entry-le now target es (thrown v) f = omega arith
after_entry-le now target es (counted t v) f = f t v

batch-le :
    (now : ℕ) (target : String) (es : List StreamEntry) (t : Tally) (w : World)
    → entries_at_most (world_of (scan_batch now target es t w)) ≤ entries_at_most w
unfolding scan_batch
batch-le now target [] t w = omega arith
batch-le now target (e ∷ es) t w = omega (
  arith,
  after_entry-le now target es (scan_entry now target e t w) (batch-le now target es),
  entry-le now target e t w,
)

touch-le :
    (target token : String) (w : World) → entries_at_most (touch target token w) ≤ entries_at_most w
unfolding touch
touch-le target token w =
    let v = wait w in rw (touch-stream v.store target token v.now_ms) (wait-le w)

ltb-ge : (a b : ℕ) → ltb a b ≡ false → b ≤ a
ltb-ge a b h = ground arith

Step-world :
    (s : Step)
    → ((t : Tally) × (v : World) × (s ≡ counted t v) × (world_of s ≡ v))
      ⊎ ((v : World) × (s ≡ thrown v))
Step-world (counted t v) = inl (t, v, refl, refl)
Step-world (thrown v) = inr (v, refl)

exact-size : (a : ℕ) → a < suc batch_size → batch_size ≤ a → a ≡ batch_size
exact-size a h k = omega arith

failed-ne : (w : World) → failed w ≡ unfinished → ⊥
failed-ne w h = ground arith

finished-ne : (t : Tally) (w : World) → finished t w ≡ unfinished → ⊥
finished-ne t w h = ground arith

-- A full batch lies within the entries that there are.
batch-in :
    (cursor : ℕ) (x : Slot (List StreamEntry)) (bs : List StreamEntry)
    → batch_of cursor x ≡ some bs
    → nat_eq (length bs) 0 ≡ false
    → ltb (length bs) batch_size ≡ false
    → (length bs ≡ batch_size) × (cursor + batch_size ≤ stream_length x)
batch-in cursor Slot.missing bs e y l = absurd (ground arith)
batch-in cursor Slot.malformed bs e y l = absurd (ground arith)
batch-in cursor Slot.wrong_type bs e y l = absurd (ground arith)
batch-in cursor (Slot.value es) bs e y l =
    let same : take batch_size (drop cursor es) ≡ bs = some_inj e in
    let least = ltb-ge (length bs) batch_size l in
    let size : length (take batch_size (drop cursor es)) ≡ batch_size =
      exact-size _ (length-take-le batch_size (drop cursor es)) (rw same least) in
    (rw⁻¹ same size, full-le 127 cursor es size)

after-le :
    (now : ℕ) (target token : String) (bs : List StreamEntry) (t : Tally) (w u : World)
    → world_of (scan_batch now target bs t (wait w)) ≡ u
    → entries_at_most (touch target token u) ≤ entries_at_most w
after-le now target token bs t w u same =
    let scanned : entries_at_most u ≤ entries_at_most (wait w) =
      rw⁻¹ same (batch-le now target bs t (wait w)) in
    omega (arith, touch-le target token u, wait-le w)

-- Fuel for one round more than there are full batches is enough.
loop-ne-unfinished :
    (n now : ℕ) (target token : String) (cursor : ℕ) (t : Tally) (w : World)
    → zero < n
    → entries_at_most w < cursor + n * batch_size
    → scan_loop n now target token cursor t w ≢ unfinished
unfolding scan_loop
loop-ne-unfinished zero now target token cursor t w o b h = omega arith
loop-ne-unfinished (suc n) now target token cursor t w o b h =
    elim (Option-cases (batch_of cursor (wait w).store.stream)) [
      | inl e ↦ failed-ne (wait w) (sym (rw (e, scan_loop)) ∙ h)
      | inr (bs, e) ↦ elim (Bool-cases (nat_eq (length bs) 0)) [
        | inl y ↦ finished-ne t (wait w) (sym (rw (e, y, scan_loop)) ∙ h)
        | inr y ↦ elim (Step-world (scan_batch now target bs t (wait w))) [
          | inr (u, k) ↦ failed-ne u (sym (rw (e, y, k, scan_loop)) ∙ h)
          | inl (t1, u, k, same) ↦ elim (Bool-cases (ltb (length bs) batch_size)) [
            | inl l ↦ finished-ne t1 (touch target token u) (sym (rw (e, y, k, l, scan_loop)) ∙ h)
            | inr l ↦
                let (size, inside) = batch-in cursor (wait w).store.stream bs e y l in
                let fewer : entries_at_most (touch target token u) ≤ entries_at_most w =
                  after-le now target token bs t w u same in
                let room : cursor + batch_size ≤ entries_at_most w = omega (arith, wait-le w) in
                loop-ne-unfinished n now target token (cursor + length bs) t1 (touch target token u)
                  (omega arith) (omega arith) (sym (rw (e, y, k, l, scan_loop)) ∙ h)
          ]
        ]
      ]
    ]

end-ne-unfinished :
    (target : String) (end : ScanEnd) → end ≢ unfinished → verify_end target end ≢ unfinished
end-ne-unfinished target (finished t w) f h = finished-ne t (prune_expired target t.expired_ids w) h
end-ne-unfinished target (failed w) f h = f h
end-ne-unfinished target unfinished f h = f h

-- The verification of a target's quiescence ends: fuel for more entries than the stream has, with one
-- more for each call that others still make, is enough, for any calls of others in between.
pub verify-ne-unfinished :
    (fuel now : ℕ) (target token : String) (w : World)
    → entries_at_most w < fuel * batch_size
    → verify_target_quiescence fuel now target token w ≢ unfinished
unfolding verify_target_quiescence
verify-ne-unfinished fuel now target token w b =
    end-ne-unfinished target (scan_loop fuel now target token 0 empty_tally w)
      (loop-ne-unfinished fuel now target token 0 empty_tally w (omega arith) (omega arith))
