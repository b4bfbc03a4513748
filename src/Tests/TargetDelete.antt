-- ===== src/Tests/TargetDelete.antt =====
-- The theorems on the deletion of targets at concrete inputs.
use chief_everything_officer.Base.{true, false, ◌≡◌, [], ◌∷◌, ◌≢◌, refl, ◌==◌, arith, List}
use chief_everything_officer.Base.Redis.{put, without, zadd, zrem}
use chief_everything_officer.Jobs.Records.{StreamEntry}
use chief_everything_officer.Jobs.Scripts.{is_fenced, is_digest, is_sound, is_owned}
use chief_everything_officer.Jobs.Scripts.Create.{
  create_checks, create_decision, make_job, create_job,
}
use chief_everything_officer.Jobs.Scripts.Claim.{
  claim_of_job, claim_decision, replay_claim, new_claim, grant_claim, drop_expired, claim_job,
}
use chief_everything_officer.Jobs.Scripts.Start.{start_checks, start_decision, start_job}
use chief_everything_officer.Jobs.Scripts.Report.{
  is_execution_status, is_business_outcome, validate_report, same_report, finish_checks,
  report_checks, report_decision, report_job,
}
use chief_everything_officer.Jobs.Scripts.Record.{record_checks, record_decision, record_job_result}
use chief_everything_officer.Jobs.Scripts.Queue.{zrem_all, prune_target_queue}
use chief_everything_officer.Jobs.Scripts.Fences.{
  acquire_fence, touch_fence, takeover_fence, release_read, release_delete,
}
use chief_everything_officer.Base.Sql.{find_row}
use chief_everything_officer.Jobs.Machine.Calls.{record_call, step, run}
use chief_everything_officer.TargetDelete.World.{World, wait}
use chief_everything_officer.TargetDelete.Scan.{
  empty_tally, unfinished, scan_entry, scan_batch, scan_loop, touch, verify_target_quiescence,
}
use chief_everything_officer.TargetDelete.Scan.Fuel.{verify-ne-unfinished}
use chief_everything_officer.TargetDelete.Scan.Quiet.Verify.{IsQuiescent, verify-IsQuiescent}
use chief_everything_officer.TargetDelete.Coordinator.{
  no_fault, get_throws, Site, Clocks, deleted, get_execution_target, without_target,
  delete_execution_target_row, release, run_fenced_delete, take_stale_fence, handle_contended_fence,
  delete_target_internal, find_workspace_membership, delete_target_for_device,
}
use chief_everything_officer.TargetDelete.Coordinator.Deleted.{Done, delete_target-Done}
use chief_everything_officer.TargetDelete.Coordinator.Fenced.{
  DeletedIn, holds_fence, run_fenced-DeletedIn, run_fenced-released,
}
use chief_everything_officer.Tests.JobsData.{empty, caller, delivery, to_reported}

-- What a run computes with.
running_scan : Unit {0}
unfolding ◌==◌ put without zadd zrem is_fenced is_digest is_sound is_owned create_checks
    create_decision make_job create_job claim_of_job claim_decision replay_claim new_claim
    grant_claim drop_expired claim_job start_checks start_decision start_job is_execution_status
    is_business_outcome validate_report same_report finish_checks report_checks report_decision
    report_job record_checks record_decision record_job_result zrem_all prune_target_queue
    acquire_fence touch_fence step run wait scan_entry scan_batch scan_loop touch
    verify_target_quiescence find_row get_execution_target without_target
    delete_execution_target_row release_read release_delete release run_fenced_delete takeover_fence
    take_stale_fence handle_contended_fence delete_target_internal find_workspace_membership
    delete_target_for_device
running_scan = tt

-- A fenced target with one reported job, whose result comes in during the scan.
abbrev fenced_world : World
fenced_world = record {
  store = (acquire_fence (run empty to_reported) "t1" "tok" 2000 2001).1;
  now_ms = 2001;
  gaps = record { calls = record_call caller delivery "" 2002 ∷ []; now_ms = 2003 } ∷ [];
}

abbrev entries : List StreamEntry
entries =
    record {
      entry_id = "1-0";
      job_id = "j1";
      user_id = "u1";
      workspace_id = "w1";
      target_id = "t1";
      created_at_ms = 100;
    }
    ∷ []

verify-IsQuiescent_example :
    IsQuiescent 2001 "t1" 2001 3000 entries (touch "t1" "tok" (wait (wait fenced_world)))
unfolding running_scan
verify-IsQuiescent_example =
    verify-IsQuiescent 1 2001 "t1" "tok" 2001 3000 entries
      (record empty_tally { terminal_jobs = 1 }) fenced_world
      (touch "t1" "tok" (wait (wait fenced_world))) (omega arith)
      (
        (
          record { started_ms = 2000; token = "tok"; expires_at_ms = 62001 },
          refl,
          omega arith,
          omega arith,
        ),
        refl,
        (((refl, tt), refl), tt),
      )
      ([], refl) refl refl

verify-ne-unfinished_example : verify_target_quiescence 1 2001 "t1" "tok" fenced_world ≢ unfinished
unfolding running_scan
verify-ne-unfinished_example = verify-ne-unfinished 1 2001 "t1" "tok" fenced_world (omega arith)

abbrev site : Site
site = record {
  world = fenced_world;
  targets =
      record { id = "t1"; workspace_id = "w1" } ∷ record { id = "t2"; workspace_id = "w1" } ∷ [];
  memberships = record { workspace_id = "w1"; user_id = "u1"; role = "owner"; created_at = 1 } ∷ [];
  release_fault = no_fault;
}

abbrev clocks : Clocks
clocks = record {
  acquire_ms = 2100;
  contended_ms = 70000;
  takeover_ms = 70001;
  again_ms = 70002;
  verify_ms = 70003;
}

run_fenced-DeletedIn_example :
    DeletedIn 1 2001 "t1" "tok" 2001 3000 entries site 1
      (run_fenced_delete 1 2001 "t1" "tok" site).0.world
unfolding running_scan
run_fenced-DeletedIn_example =
    run_fenced-DeletedIn 1 2001 "t1" "tok" 2001 3000 entries site 1 (omega arith)
      (
        (
          record { started_ms = 2000; token = "tok"; expires_at_ms = 62001 },
          refl,
          omega arith,
          omega arith,
        ),
        refl,
        (((refl, tt), refl), tt),
      )
      ([], refl) refl

run_fenced-released_example :
    holds_fence "t1" "tok" (run_fenced_delete 1 2001 "t1" "tok" site).0.world ≡ false
unfolding running_scan
run_fenced-released_example = run_fenced-released 1 2001 "t1" "tok" site refl (omega arith)

delete_target-Done_example :
    Done "t1" "u1" site (delete_target_for_device 1 clocks "t1" "tok2" "u1" site)
delete_target-Done_example = delete_target-Done 1 clocks "t1" "tok2" "u1" site

-- The stale fence of the first caller is taken over, and the target is deleted.
taken_over : (delete_target_for_device 1 clocks "t1" "tok2" "u1" site).1 ≡ deleted 1
unfolding running_scan
taken_over = refl

-- A release whose first call throws leaves the fence, which ends with its TTL.
fence_is_left :
    holds_fence "t1" "tok"
      (run_fenced_delete 1 2001 "t1" "tok" (record site { release_fault = get_throws })).0.world
    ≡ true
unfolding running_scan
fence_is_left = refl
