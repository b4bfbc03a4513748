-- ===== src/TargetDelete/Coordinator/Fenced.antt =====
-- The fence and the verdict under which `runFencedDelete` of services/server/src/jobs/target-delete.ts
-- deletes.
use chief_everything_officer.Base.{
  ℕ, ◌+◌, ◌*◌, ◌<◌, String, Bool, true, false, List, ◌≡◌, ◌≢◌, refl, sym, inl, inr, Bool-cases,
  arith, nat_eq, is_some,
}
use chief_everything_officer.Base.Redis.{Slot}
use chief_everything_officer.Base.Redis.Laws.{put_self}
use chief_everything_officer.Jobs.Records.{StreamEntry}
use chief_everything_officer.Jobs.Machine.Stream.{Holds}
use chief_everything_officer.Jobs.Scripts.{fence_ttl_ms, unexpired_fence}
use chief_everything_officer.Jobs.Scripts.Fences.{owns, release_read, release_delete}
use chief_everything_officer.TargetDelete.World.{World, wait}
use chief_everything_officer.TargetDelete.Scan.{
  Tally, blocked, ScanEnd, finished, failed, unfinished, verify_target_quiescence,
}
use chief_everything_officer.TargetDelete.Scan.{batch_size}
use chief_everything_officer.TargetDelete.Scan.Fuel.{entries_at_most, verify-ne-unfinished}
use chief_everything_officer.TargetDelete.Scan.Quiet.Sound.{IsCalm}
use chief_everything_officer.TargetDelete.Scan.Quiet.Verify.{IsQuiescent, verify-IsQuiescent}
use chief_everything_officer.TargetDelete.Coordinator.{
  no_fault, Site, get_execution_target, deleted, delete_execution_target_row, release,
  delete_verified, run_fenced_delete,
}

-- The verification ended with this tally in this world, in which the row was deleted, quiescent under
-- the fence, and released after.
pub record DeletedIn (fuel now : ℕ) (target token : String) (start later : ℕ)
    (es : List StreamEntry) (s : Site) (n : ℕ) (after : World) : Type 0 where
  pub verdict : World
  pub tally : Tally
  pub verified : verify_target_quiescence fuel now target token s.world ≡ finished tally verdict
  pub nothing_blocked : blocked tally ≡ 0
  pub terminal : n ≡ tally.terminal_jobs
  pub quiescent : IsQuiescent now target start later es verdict
  pub released : after ≡ release s.release_fault target token verdict

deleted_inj : {m n : ℕ} → deleted m ≡ deleted n → m ≡ n
deleted_inj e = cc

zero_of : (n : ℕ) → nat_eq n 0 ≡ true → n ≡ 0
zero_of n h = ground (arith, h)

verified-DeletedIn :
    (fuel now : ℕ) (target token : String) (start later : ℕ) (es : List StreamEntry) (s : Site)
    (n : ℕ) (end : ScanEnd)
    → verify_target_quiescence fuel now target token s.world ≡ end
    → ((t : Tally) (v : World)
        → end ≡ finished t v
        → blocked t ≡ 0
        → IsQuiescent now target start later es v)
    → (delete_verified target token s end).1 ≡ deleted n
    → DeletedIn fuel now target token start later es s n
        (delete_verified target token s end).0.world
unfolding delete_execution_target_row
verified-DeletedIn fuel now target token start later es s n unfinished v q h = absurd (cc (h))
verified-DeletedIn fuel now target token start later es s n (failed w) v q h = absurd (cc (h))
verified-DeletedIn fuel now target token start later es s n (finished t w) v q h =
    elim (Bool-cases (nat_eq (blocked t) 0)) [
      | inr b ↦ absurd (cc (rw b at h))
      | inl b ↦ elim (Bool-cases (is_some (get_execution_target s.targets target))) [
        | inr r ↦ absurd (cc (rw (b, r) at h))
        | inl r ↦ rw b (record {
          verdict = w;
          tally = t;
          verified = v;
          nothing_blocked = zero_of (blocked t) b;
          terminal = sym (deleted_inj (rw (b, r) at h));
          quiescent = q t w refl (zero_of (blocked t) b);
          released = refl;
        })
      ]
    ]

-- A target that a fenced deletion answers to have deleted was quiescent when its row was deleted,
-- given that the fence was up before the verification, on and until `later`, and the calls of others
-- in between were calm: the fence was still up, and each entry that the stream had at the beginning
-- is of another target, or its job cannot be read or is of another target, terminal, or queued past
-- its claim deadline. The release is called after that, and the number in the answer is that of the
-- terminal jobs that the verification counted.
pub run_fenced-DeletedIn :
    (fuel now : ℕ) (target token : String) (start later : ℕ) (es : List StreamEntry) (s : Site)
    (n : ℕ)
    → later < start + fence_ttl_ms
    → IsCalm target start later s.world
    → Holds es s.world.store
    → (run_fenced_delete fuel now target token s).1 ≡ deleted n
    → DeletedIn fuel now target token start later es s n
        (run_fenced_delete fuel now target token s).0.world
unfolding run_fenced_delete
run_fenced-DeletedIn fuel now target token start later es s n b calm holds h =
    verified-DeletedIn fuel now target token start later es s n
      (verify_target_quiescence fuel now target token s.world) refl
      (λ t v e z.
        verify-IsQuiescent fuel now target token start later es t s.world v b calm holds e z)
      h

-- Whether the fence of the target is the caller's, as a reader sees it now.
abbrev pub holds_fence : String → String → World → Bool
holds_fence target token w = owns (unexpired_fence w.now_ms (w.store.fences target)) token

released-world :
    (target token : String) (w : World)
    → holds_fence target token (release no_fault target token w) ≡ false
unfolding release release_read release_delete
released-world target token w =
    let v = wait w in
    let u = wait v in
    elim (Bool-cases (release_read v.store target token v.now_ms)) [
      | inr r ↦ rw (release, r) r
      | inl r ↦ rw (release, r) (rw (put_self target Slot.missing u.store.fences) refl)
    ]

verified-released :
    (target token : String) (s : Site) (end : ScanEnd)
    → s.release_fault ≡ no_fault
    → end ≢ unfinished
    → holds_fence target token (delete_verified target token s end).0.world ≡ false
verified-released target token s unfinished e ne = absurd (ne refl)
verified-released target token s (failed w) e ne = rw e (released-world target token w)
verified-released target token s (finished t w) e ne = elim (Bool-cases (nat_eq (blocked t) 0)) [
  | inl b ↦ rw (b, e) (released-world target token w)
  | inr b ↦ rw (b, e) (released-world target token w)
]

-- When neither call of the release throws, a fenced deletion, with fuel for more entries than the
-- stream has and one more for each call that others still make, ends without the fence, whatever it
-- answers and whatever others call in between.
pub run_fenced-released :
    (fuel now : ℕ) (target token : String) (s : Site)
    → s.release_fault ≡ no_fault
    → entries_at_most s.world < fuel * batch_size
    → holds_fence target token (run_fenced_delete fuel now target token s).0.world ≡ false
unfolding run_fenced_delete
run_fenced-released fuel now target token s works room =
    verified-released target token s (verify_target_quiescence fuel now target token s.world) works
      (verify-ne-unfinished fuel now target token s.world room)
