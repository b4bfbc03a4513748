-- ===== src/Tests/JobService.antt =====
-- The theorem on cancellation by a device at a concrete input, and a race in which its answer is off.
use chief_everything_officer.Base.{[], ◌∷◌, ◌≡◌, refl, ◌==◌}
use chief_everything_officer.Base.Redis.{put, without, zadd, zrem}
use chief_everything_officer.OAuth.Scope.{has}
use chief_everything_officer.Jobs.Scripts.{is_fenced, is_digest, is_sound, is_owned}
use chief_everything_officer.Jobs.Scripts.Create.{
  create_checks, create_decision, make_job, create_job,
}
use chief_everything_officer.Jobs.Scripts.Claim.{
  claim_of_job, claim_decision, replay_claim, new_claim, grant_claim, drop_expired, claim_job,
}
use chief_everything_officer.Jobs.Scripts.Start.{start_checks, start_decision, start_job}
use chief_everything_officer.Jobs.Scripts.Report.{
  is_execution_status, is_business_outcome, validate_report, same_report, finish_checks,
  report_checks, report_decision, report_job,
}
use chief_everything_officer.Jobs.Scripts.Cancel.{
  cancel_terminal, cancel_active, cancel_decision, cancel_job,
}
use chief_everything_officer.Jobs.Machine.Calls.{report_call, step, run}
use chief_everything_officer.TargetDelete.World.{World, wait}
use chief_everything_officer.JobService.{
  running, result, cancels, already_cancelled, CancelRequest, derive_host_job_state,
  job_execution_status_view, cancel_round, cancel_rounds, cancel_job_for_device,
}
use chief_everything_officer.JobService.Cancelled.{Ended, answers, cancel_for_device-Ended}
use chief_everything_officer.Tests.JobsData.{empty, caller, good_report, to_running}

-- What a run computes with.
running_cancel : Unit {0}
unfolding ◌==◌ put without zadd zrem has is_fenced is_digest is_sound is_owned create_checks
    create_decision make_job create_job claim_of_job claim_decision replay_claim new_claim
    grant_claim drop_expired claim_job start_checks start_decision start_job is_execution_status
    is_business_outcome validate_report same_report finish_checks report_checks report_decision
    report_job cancel_terminal cancel_active cancel_decision cancel_job step run wait
    derive_host_job_state job_execution_status_view cancel_round cancel_rounds cancel_job_for_device
running_cancel = tt

abbrev request : CancelRequest
request = record {
  device_id = "d9";
  user_id = "u1";
  job_id = "j1";
  bound_targets = "t1" ∷ [];
  receipt_of = λ job attempt. job;
  clock = λ round. 1000;
}

abbrev quiet : World
quiet = record { store = run empty to_running; now_ms = 1000; gaps = [] }

-- The report of the running attempt comes in after the reads and before the script.
abbrev raced : World
raced = record quiet {
  gaps =
      record { calls = []; now_ms = 1000 }
      ∷ record { calls = []; now_ms = 1000 }
      ∷ record { calls = report_call caller good_report 1001 ∷ []; now_ms = 1002 }
      ∷ [];
}

cancel_for_device-Ended_example : Ended answers request quiet (cancel_job_for_device request quiet)
cancel_for_device-Ended_example = cancel_for_device-Ended request quiet

cancels_running : (cancel_job_for_device request quiet).1 ≡ result running cancels
unfolding running_cancel
cancels_running = refl

-- The job has completed, and the answer is that it was cancelled before.
completed_is_called_cancelled :
    (cancel_job_for_device request raced).1 ≡ result running already_cancelled
unfolding running_cancel
completed_is_called_cancelled = refl
