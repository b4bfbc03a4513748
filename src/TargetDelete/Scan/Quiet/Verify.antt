-- ===== src/TargetDelete/Scan/Quiet/Verify.antt =====
-- The verdict of verifyTargetQuiescence of services/server/src/jobs/target-delete.ts.
use chief_everything_officer.Base.{ℕ, String, ◌≡◌, ap, arith, ◌+◌, ◌<◌, List, [], ◌∷◌, All, All-imp}
use chief_everything_officer.Jobs.Records.{StreamEntry}
use chief_everything_officer.Jobs.Scripts.{fence_ttl_ms}
use chief_everything_officer.Jobs.Machine.Jobs.{prune-jobs}
use chief_everything_officer.Jobs.Machine.Fences.{prune-fences}
use chief_everything_officer.Jobs.Machine.Stream.{Holds}
use chief_everything_officer.TargetDelete.World.{World, wait}
use chief_everything_officer.TargetDelete.Scan.{
  Tally, blocked, ScanEnd, finished, failed, unfinished, scan_loop, prune_expired, verify_end,
  empty_tally, verify_target_quiescence,
}
use chief_everything_officer.TargetDelete.Scan.Quiet.Sound.{
  IsCalm, StaysDead, wait-IsCalm, StaysDead-entries,
}
use chief_everything_officer.TargetDelete.Scan.Quiet.Loop.{
  EntryFits, finished-tally, finished-world, loop-IsSettled,
}

prune-IsCalm :
    (now : ℕ) (target : String) (start later : ℕ) (ids : List String) (w : World)
    → later < start + fence_ttl_ms
    → IsCalm target start later w
    → IsCalm target start later (prune_expired target ids w)
      × StaysDead now target w (prune_expired target ids w)
prune-IsCalm now target start later [] w b calm = (calm, λ k g. g)
prune-IsCalm now target start later (id ∷ ids) w b calm =
    let v = wait w in
    let ((up, m, h), keep) = wait-IsCalm target start later now w b calm in
    (
      (rw (prune-fences v.store target (id ∷ ids)) up, m, h),
      λ k g. rw (prune-jobs v.store target (id ∷ ids)) (keep k g),
    )

-- What stands at the verdict: the fence is up, and each entry is another target's or of a job that
-- cannot run.
abbrev pub IsQuiescent : ℕ → String → ℕ → ℕ → List StreamEntry → World → Type 0
IsQuiescent now target start later es v =
    IsCalm target start later v × All (λ e. EntryFits now target v e) es

verify_end-IsQuiescent :
    (now : ℕ) (target : String) (start later : ℕ) (es : List StreamEntry) (s : ScanEnd) (t : Tally)
    (v : World)
    → later < start + fence_ttl_ms
    → verify_end target s ≡ finished t v
    → ((u : World)
        → s ≡ finished t u
        → IsCalm target start later u × All (λ e. EntryFits now target u e) es)
    → IsQuiescent now target start later es v
verify_end-IsQuiescent now target start later es (finished t1 u) t v b h f =
    let (calm, fits) = f u (ap (λ x. finished x u) (finished-tally h)) in
    let (calm', keep) = prune-IsCalm now target start later t1.expired_ids u b calm in
    rw⁻¹ (finished-world h) (
      calm',
      All-imp (λ e. EntryFits now target u e)
          (λ e. EntryFits now target (prune_expired target t1.expired_ids u) e)
          (λ e. StaysDead-entries now target u (prune_expired target t1.expired_ids u) e keep) es
          fits,
    )
verify_end-IsQuiescent now target start later es (failed u) t v b h f = absurd (ground arith)
verify_end-IsQuiescent now target start later es unfinished t v b h f = absurd (ground arith)

-- The delete fence of a target is up, from `start` on and still at `later`; the calls of others in
-- between neither take it over nor release it, ask for it only before it expires, and re-arm it not
-- before `start`; their creations and claims are not after `later`. When the verification finishes with
-- nothing blocked, the same still holds, and each entry that the stream had at its beginning is of
-- another target, or its job cannot be read or is of another target, terminal, or queued past its
-- claim deadline.
pub verify-IsQuiescent :
    (fuel now : ℕ) (target token : String) (start later : ℕ) (es : List StreamEntry) (t : Tally)
    (w v : World)
    → later < start + fence_ttl_ms
    → IsCalm target start later w
    → Holds es w.store
    → verify_target_quiescence fuel now target token w ≡ finished t v
    → blocked t ≡ 0
    → IsQuiescent now target start later es v
unfolding verify_target_quiescence
verify-IsQuiescent fuel now target token start later es t w v b calm k h z =
    verify_end-IsQuiescent now target start later es
      (scan_loop fuel now target token 0 empty_tally w) t v b h
      (λ u e.
        let (calm', _, fits) =
          loop-IsSettled fuel now target token start later 0 es empty_tally t w u b e z calm k in
        (calm', fits))
