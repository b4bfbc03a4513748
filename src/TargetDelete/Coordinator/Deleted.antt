-- ===== src/TargetDelete/Coordinator/Deleted.antt =====
-- What a deletion by TargetDeleteCoordinator of services/server/src/jobs/target-delete.ts does to the
-- rows and the fence, and when it deletes.
use chief_everything_officer.Base.{
  ℕ, String, none, some, List, [], ◌∷◌, ◌≡◌, ◌≢◌, refl, inl, inr, ◌==◌, eq_iff, Bool-cases,
  Option-cases, arith, is_some, nat_eq,
}
use chief_everything_officer.Base.Redis.{is_bad_type}
use chief_everything_officer.Base.Sql.{find_row}
use chief_everything_officer.Base.Sql.Laws.{find_row-passes}
use chief_everything_officer.Identity.{Membership}
use chief_everything_officer.Jobs.Scripts.{unexpired_fence}
use chief_everything_officer.TargetDelete.World.{wait}
use chief_everything_officer.TargetDelete.Scan.{
  blocked, ScanEnd, finished, failed, unfinished, verify_target_quiescence,
}
use chief_everything_officer.TargetDelete.Coordinator.{
  Target, Site, Outcome, deleted, get_execution_target, without_target, delete_execution_target_row,
  delete_verified, run_fenced_delete, Clocks, with_store, fenced_world, taken_world, is_fresh,
  take_stale_fence, handle_contended_fence, delete_target_internal, find_workspace_membership,
  delete_target_for_device,
}

-- A row was deleted, or the rows are as they were.
data Rows (target : String) (before : List Target) (r : Site × Outcome) : Type 0 where
  gone :
      (n : ℕ) → r.1 ≡ deleted n → r.0.targets ≡ without_target target before → Rows target before r
  kept : r.0.targets ≡ before → ((n : ℕ) → r.1 ≢ deleted n) → Rows target before r

absent :
    (target : String) (targets : List Target)
    → get_execution_target targets target ≡ none
    → without_target target targets ≡ targets
unfolding get_execution_target without_target find_row
absent target [] h = refl
absent target (t ∷ targets) h = ground (arith, absent target targets)

verified-Rows :
    (target token : String) (s : Site) (e : ScanEnd)
    → Rows target s.targets (delete_verified target token s e)
unfolding delete_execution_target_row
verified-Rows target token s unfinished = kept refl (λ n e. cc (e))
verified-Rows target token s (failed w) = kept refl (λ n e. cc (e))
verified-Rows target token s (finished t w) = elim (Bool-cases (nat_eq (blocked t) 0)) [
  | inr b ↦ rw b (kept refl (λ n e. cc (e)))
  | inl b ↦ elim (Option-cases (get_execution_target s.targets target)) [
    | inr (row, e) ↦ rw (b, e) (gone t.terminal_jobs refl refl)
    | inl e ↦ rw (b, e) (kept (absent target s.targets e) (λ n k. cc (k)))
  ]
]

run-Rows :
    (fuel now : ℕ) (target token : String) (s : Site)
    → Rows target s.targets (run_fenced_delete fuel now target token s)
unfolding run_fenced_delete
run-Rows fuel now target token s =
    verified-Rows target token s (verify_target_quiescence fuel now target token s.world)

stale-Rows :
    (fuel : ℕ) (c : Clocks) (target token : String) (s : Site)
    → Rows target s.targets (take_stale_fence fuel c target token s)
unfolding take_stale_fence
stale-Rows fuel c target token s =
    let taken = taken_world (wait s.world) target token c.takeover_ms in
    let again = fenced_world (wait taken.1) target token c.again_ms in
    elim (Bool-cases taken.0) [
      | inl e ↦
          rw (take_stale_fence, e) (run-Rows fuel c.verify_ms target token (with_store taken.1 s))
      | inr e ↦ elim (Bool-cases again.0) [
        | inl k ↦
            rw (take_stale_fence, e, k)
              (run-Rows fuel c.verify_ms target token (with_store again.1 s))
        | inr k ↦ rw (take_stale_fence, e, k) (kept refl (λ n h. cc (h)))
      ]
    ]

contended-Rows :
    (fuel : ℕ) (c : Clocks) (target token : String) (s : Site)
    → Rows target s.targets (handle_contended_fence fuel c target token s)
unfolding handle_contended_fence
contended-Rows fuel c target token s =
    let w = wait s.world in
    elim (Bool-cases (is_some (get_execution_target s.targets target))) [
      | inr e ↦ rw (handle_contended_fence, e) (kept refl (λ n h. cc (h)))
      | inl e ↦ elim (Bool-cases (is_bad_type (w.store.fences target))) [
        | inl b ↦ rw (handle_contended_fence, e, b) (kept refl (λ n h. cc (h)))
        | inr b ↦
            elim (Bool-cases
              (is_fresh c.contended_ms (unexpired_fence w.now_ms (w.store.fences target)))) [
                | inl f ↦ rw (handle_contended_fence, e, b, f) (kept refl (λ n h. cc (h)))
                | inr f ↦
                    rw (handle_contended_fence, e, b, f)
                      (stale-Rows fuel c target token (with_store w s))
              ]
      ]
    ]

internal-Rows :
    (fuel : ℕ) (c : Clocks) (target token : String) (s : Site)
    → Rows target s.targets (delete_target_internal fuel c target token s)
unfolding delete_target_internal
internal-Rows fuel c target token s =
    let first = fenced_world (wait s.world) target token c.acquire_ms in
    elim (Bool-cases first.0) [
      | inl e ↦
          rw (delete_target_internal, e)
            (run-Rows fuel c.verify_ms target token (with_store first.1 s))
      | inr e ↦
          rw (delete_target_internal, e) (contended-Rows fuel c target token (with_store first.1 s))
    ]

-- The actor owns the workspace of the target.
pub record Owns (s : Site) (target actor : String) : Type 0 where
  pub row : Target
  pub membership : Membership
  pub there : get_execution_target s.targets target ≡ some row
  pub member : find_workspace_membership s.memberships row.workspace_id actor ≡ some membership
  pub owner : membership.role ≡ "owner"

-- What a deletion asked for by a device did: an owner deleted the row of the target and no other, or
-- every row is as it was and the answer is not that the target was deleted.
pub data Done (target actor : String) (s : Site) (r : Site × Outcome) : Type 0 where
  removed :
      (n : ℕ)
      → r.1 ≡ deleted n
      → r.0.targets ≡ without_target target s.targets
      → Owns s target actor
      → Done target actor s r
  unchanged : r.0.targets ≡ s.targets → ((n : ℕ) → r.1 ≢ deleted n) → Done target actor s r

owned :
    (target actor : String) (s : Site) (r : Site × Outcome)
    → Owns s target actor
    → Rows target s.targets r
    → Done target actor s r
owned target actor s r o (gone n e k) = removed n e k o
owned target actor s r o (kept k ne) = unchanged k ne

own_id :
    (s : Site) (target : String) (t : Target)
    → get_execution_target s.targets target ≡ some t
    → t.id ≡ target
unfolding get_execution_target
own_id s target t e =
    (eq_iff t.id target).0 (find_row-passes (λ (t : Target). t.id == target) s.targets e)

-- Whatever calls of others on the job store come in between, a deletion that a device asks for
-- removes exactly the row of the target when it answers that the target was deleted, and then its
-- user is an owner of the target's workspace; every other answer leaves every row.
pub delete_target-Done :
    (fuel : ℕ) (c : Clocks) (target token actor : String) (s : Site)
    → Done target actor s (delete_target_for_device fuel c target token actor s)
unfolding delete_target_for_device
delete_target-Done fuel c target token actor s =
    elim (Option-cases (get_execution_target s.targets target)) [
      | inl e ↦ rw (delete_target_for_device, e) (unchanged refl (λ n h. cc (h)))
      | inr (t, e) ↦
          elim (Option-cases (find_workspace_membership s.memberships t.workspace_id actor)) [
            | inl m ↦ rw (delete_target_for_device, e, m) (unchanged refl (λ n h. cc (h)))
            | inr (mine, m) ↦ elim (Bool-cases (mine.role == "owner")) [
              | inr o ↦ rw (delete_target_for_device, e, m, o) (unchanged refl (λ n h. cc (h)))
              | inl o ↦
                  let owns : Owns s target actor = record {
                    row = t;
                    membership = mine;
                    there = e;
                    member = m;
                    owner = (eq_iff mine.role "owner").0 o;
                  } in
                  rw (delete_target_for_device, e, m, o)
                    (owned target actor s _ owns
                      (rw (own_id s target t e) (internal-Rows fuel c target token s)))
            ]
          ]
    ]
