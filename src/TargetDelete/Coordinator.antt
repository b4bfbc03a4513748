-- ===== src/TargetDelete/Coordinator.antt =====
-- TargetDeleteCoordinator of services/server/src/jobs/target-delete.ts around its scan: who may
-- delete a target, the fence, the row and the release. Calls of others on the job store run at every
-- `await`; the rows of the control store change only here.
pub mod Deleted
pub mod Fenced
use chief_everything_officer.Base.{
  ℕ, String, Bool, true, false, not, Option, none, some, List, [], ◌∷◌, ◌-◌, ◌&&◌, ◌==◌, ltb, leb,
  nat_eq, is_some, if◌then◌else◌,
}
use chief_everything_officer.Base.Redis.{Slot, is_bad_type}
use chief_everything_officer.Base.Sql.{find_row}
use chief_everything_officer.Identity.{Membership}
use chief_everything_officer.Jobs.Records.{Fence}
use chief_everything_officer.Jobs.Scripts.{fence_ttl_ms, unexpired_fence}
use chief_everything_officer.Jobs.Scripts.Fences.{
  acquire_fence, takeover_fence, release_read, release_delete,
}
use chief_everything_officer.TargetDelete.World.{World, wait}
use chief_everything_officer.TargetDelete.Scan.{
  Tally, blocked, ScanEnd, finished, failed, unfinished, verify_target_quiescence,
}

pub record Target : Type 0 where
  pub id : String
  pub workspace_id : String

-- The call of the release that throws, if any, before Redis has run it; one whose answer alone is
-- lost leaves what a release without a fault leaves.
pub data Fault : Type 0 where
  no_fault get_throws del_throws : Fault

pub record Site : Type 0 where
  pub world : World
  pub targets : List Target
  pub memberships : List Membership
  pub release_fault : Fault

-- The result, or the error: a blocked deletion carries the evidence.
pub data Outcome : Type 0 where
  deleted already_deleted : ℕ → Outcome
  blocked_by : Tally → Outcome
  in_progress store_failed out_of_fuel target_not_found not_permitted : Outcome

unfoldable pub get_execution_target : List Target → String → Option Target
get_execution_target targets id = find_row (λ (t : Target). t.id == id) targets

unfoldable pub without_target : String → List Target → List Target
without_target id [] = []
without_target id (t ∷ targets) =
    let rest = without_target id targets in if t.id == id then rest else t ∷ rest

-- Whether a row was deleted, and the rows that are left.
unfoldable pub delete_execution_target_row : List Target → String → Bool × List Target
unfolding get_execution_target without_target
delete_execution_target_row targets id =
    (is_some (get_execution_target targets id), without_target id targets)

-- The release in `finally`: an error of either call is swallowed, and the fence stays.
unfoldable pub release : Fault → String → String → World → World
release get_throws target token w = wait w
release del_throws target token w =
    let v = wait w in let u = wait v in if release_read v.store target token v.now_ms then u else v
release no_fault target token w =
    let v = wait w in
    let u = wait v in
    if release_read v.store target token v.now_ms
    then record u { store = release_delete u.store target }
    else v

abbrev pub with_row_deleted : String → Tally → Site → World → Bool × List Target → Site × Outcome
with_row_deleted token t s w (there, targets) = (
  record s { world = w; targets = targets },
  if there then deleted t.terminal_jobs else already_deleted t.terminal_jobs,
)

-- After the verification: the row is deleted when nothing is blocked, and the fence is released in
-- any case.
abbrev pub delete_verified : String → String → Site → ScanEnd → Site × Outcome
delete_verified target token s (finished t w) =
    if nat_eq (blocked t) 0
    then with_row_deleted token t s (release s.release_fault target token w)
        (delete_execution_target_row s.targets target)
    else (record s { world = release s.release_fault target token w }, blocked_by t)
delete_verified target token s (failed w) =
    (record s { world = release s.release_fault target token w }, store_failed)
delete_verified target token s unfinished = (s, out_of_fuel)

unfoldable pub run_fenced_delete : ℕ → ℕ → String → String → Site → Site × Outcome
unfolding verify_target_quiescence release delete_execution_target_row
run_fenced_delete fuel now target token s =
    delete_verified target token s (verify_target_quiescence fuel now target token s.world)

-- The server's clock at each call that reads it, and the token that was drawn.
pub record Clocks : Type 0 where
  pub acquire_ms : ℕ
  pub contended_ms : ℕ
  pub takeover_ms : ℕ
  pub again_ms : ℕ
  pub verify_ms : ℕ

abbrev pub with_store : World → Site → Site
with_store w s = record s { world = w }

abbrev pub fenced_world : World → String → String → ℕ → Bool × World
fenced_world w target token clock =
    let answer = acquire_fence w.store target token clock w.now_ms in
    (answer.0, record w { store = answer.1 })

abbrev pub taken_world : World → String → String → ℕ → Bool × World
taken_world w target token clock =
    let answer = takeover_fence w.store target token clock w.now_ms in
    (answer.0, record w { store = answer.1 })

-- A fence that is there and whose start is less than the TTL ago; one without a start has begun at 0.
abbrev pub is_fresh : ℕ → Slot Fence → Bool
is_fresh clock (Slot.value f) = leb f.started_ms clock && ltb (clock - f.started_ms) fence_ttl_ms
is_fresh clock Slot.malformed = ltb clock fence_ttl_ms
is_fresh clock _ = false

-- The stale fence is taken over; when it is gone by then, the fence is acquired.
unfoldable pub take_stale_fence : ℕ → Clocks → String → String → Site → Site × Outcome
unfolding run_fenced_delete
take_stale_fence fuel c target token s =
    let (took, w) = taken_world (wait s.world) target token c.takeover_ms in
    let (acquired, v) = fenced_world (wait w) target token c.again_ms in
    if took
    then run_fenced_delete fuel c.verify_ms target token (with_store w s)
    else if acquired
    then run_fenced_delete fuel c.verify_ms target token (with_store v s)
    else (with_store v s, in_progress)

unfoldable pub handle_contended_fence : ℕ → Clocks → String → String → Site → Site × Outcome
unfolding get_execution_target take_stale_fence
handle_contended_fence fuel c target token s =
    let w = wait s.world in
    if is_some (get_execution_target s.targets target)
    then if is_bad_type (w.store.fences target)
      then (with_store w s, store_failed)
      else if is_fresh c.contended_ms (unexpired_fence w.now_ms (w.store.fences target))
      then (with_store w s, in_progress)
      else take_stale_fence fuel c target token (with_store w s)
    else (s, already_deleted 0)

unfoldable pub delete_target_internal : ℕ → Clocks → String → String → Site → Site × Outcome
unfolding run_fenced_delete handle_contended_fence
delete_target_internal fuel c target token s =
    let (acquired, w) = fenced_world (wait s.world) target token c.acquire_ms in
    if acquired
    then run_fenced_delete fuel c.verify_ms target token (with_store w s)
    else handle_contended_fence fuel c target token (with_store w s)

unfoldable pub find_workspace_membership : List Membership → String → String → Option Membership
find_workspace_membership memberships workspace user =
    find_row (λ (m : Membership). m.workspace_id == workspace && m.user_id == user) memberships

unfoldable pub delete_target_for_device :
    ℕ → Clocks → String → String → String → Site → Site × Outcome
unfolding get_execution_target find_workspace_membership delete_target_internal
delete_target_for_device fuel c target token actor s =
    elim (get_execution_target s.targets target) [
      | none ↦ (s, target_not_found)
      | some t ↦ elim (find_workspace_membership s.memberships t.workspace_id actor) [
        | none ↦ (s, target_not_found)
        | some m ↦
            if m.role == "owner"
            then delete_target_internal fuel c t.id token s
            else (s, not_permitted)
      ]
    ]
