-- ===== src/Tests/Jobs.antt =====
-- The theorems on jobs at concrete inputs.
use chief_everything_officer.Base.{some, [], ◌∷◌, ◌≡◌, ◌≢◌, refl, ◌==◌, arith}
use chief_everything_officer.Base.Redis.{Slot, put, without, zadd, zrem}
use chief_everything_officer.Jobs.Records.{
  Job, JobStatus, done, error, ScriptError, report_conflict, Attempt,
}
use chief_everything_officer.Jobs.Scripts.{is_fenced, is_digest, is_sound, is_owned}
use chief_everything_officer.Jobs.Scripts.Create.{
  make, create_checks, create_decision, make_job, create_job, queued_job,
}
use chief_everything_officer.Jobs.Scripts.Claim.{
  new_attempt, activated, claim_of_job, claim_decision, replay_claim, new_claim, grant_claim,
  drop_expired, claim_job,
}
use chief_everything_officer.Jobs.Scripts.Start.{
  fresh, started, start_checks, start_decision, start_job,
}
use chief_everything_officer.Jobs.Scripts.Report.{
  ReportReply, reported, is_execution_status, is_business_outcome, validate_report, same_report,
  finish_checks, report_checks, report_decision, finished_job, report_job,
}
use chief_everything_officer.Jobs.Scripts.Cancel.{
  cancelled, cancel_active, cancel_terminal, cancel_decision, cancel_job,
}
use chief_everything_officer.Jobs.Scripts.Record.{record_checks, record_decision, record_job_result}
use chief_everything_officer.Jobs.Scripts.Queue.{zrem_all, prune_target_queue}
use chief_everything_officer.Jobs.Scripts.Fences.{
  acquire_fence, takeover_fence, touch_fence, release_delete,
}
use chief_everything_officer.Jobs.Machine.Calls.{
  record_call, report_call, touch_call, claim_call, start_call, step, run,
}
use chief_everything_officer.Jobs.Submit.{request_key, repeated, match_existing, submit_job}
use chief_everything_officer.Jobs.Submit.Repeat.{submit_repeat}
use chief_everything_officer.Jobs.Machine.{JobMove, AttemptMove}
use chief_everything_officer.Jobs.Machine.Jobs.{step-JobMove}
use chief_everything_officer.Jobs.Machine.Attempts.{step-AttemptMove}
use chief_everything_officer.Jobs.Claims.{IsRepeat, claim_exclusive}
use chief_everything_officer.Jobs.Final.{WasCancelled, terminal_job_is_final, cancel_wins}
use chief_everything_officer.Jobs.Reports.{late_reply, report_final, report_retry}
use chief_everything_officer.Jobs.Fenced.{fence_blocks}
use chief_everything_officer.Jobs.Progress.{claimant, HasEnded, claim_to_report}
use chief_everything_officer.Jobs.Consistent.{IsConsistent}
use chief_everything_officer.Jobs.Consistent.Calls.{run-IsConsistent}
use chief_everything_officer.Jobs.Consistent.Cancelling.{cancel_succeeds}
use chief_everything_officer.Tests.JobsData.{
  empty, job, claim, caller, good_report, bad_report, cancel, delivery, to_created, to_claimed,
  to_running, to_reported,
}

-- What a run computes with.
running_jobs : Unit {0}
unfolding ◌==◌ put without zadd zrem is_fenced is_digest is_sound is_owned create_checks
    create_decision make_job create_job claim_of_job claim_decision replay_claim new_claim
    grant_claim drop_expired claim_job start_checks start_decision start_job is_execution_status
    is_business_outcome validate_report same_report finish_checks report_checks report_decision
    report_job cancel_active cancel_terminal cancel_decision cancel_job record_checks
    record_decision record_job_result zrem_all prune_target_queue acquire_fence takeover_fence
    touch_fence release_delete late_reply match_existing submit_job step run
running_jobs = tt

empty-IsConsistent : IsConsistent empty
unfolding IsConsistent
empty-IsConsistent = (λ k. tt, λ k. tt)

run-IsConsistent_example : IsConsistent (run empty to_reported)
run-IsConsistent_example = run-IsConsistent empty to_reported empty-IsConsistent

abbrev active_job : Job
active_job = activated claim (queued_job job "1-0")

abbrev first_attempt : Attempt
first_attempt = new_attempt claim (queued_job job "1-0") 200

claim_exclusive_example :
    IsRepeat claim
      (record claim { attempt_id = "a2"; device_id = "d2" })
      (claim_job
        (run (claim_job (run empty to_created) claim 200).1 (start_call caller 300 ∷ []))
        (record claim { attempt_id = "a2"; device_id = "d2" })
        400).0
unfolding running_jobs
claim_exclusive_example =
    claim_exclusive (run empty to_created) claim 200 first_attempt (start_call caller 300 ∷ [])
      (record claim { attempt_id = "a2"; device_id = "d2" }) 400 refl refl

terminal_job_is_final_example :
    ((run (run empty to_reported) (record_call caller delivery "" 1100 ∷ [])).jobs "j1"
      ≡ Slot.value (finished_job active_job))
    × (step
          (run (run empty to_reported) (record_call caller delivery "" 1100 ∷ []))
          (report_call caller bad_report 1200)
        ≡ run (run empty to_reported) (record_call caller delivery "" 1100 ∷ []))
unfolding running_jobs
terminal_job_is_final_example =
    terminal_job_is_final (run empty to_reported) (record_call caller delivery "" 1100 ∷ []) "j1"
      (finished_job active_job) (report_call caller bad_report 1200) refl refl refl

cancel_wins_example :
    ((before : Job) × (after : Job) × ((run empty to_running).jobs "j1" ≡ Slot.value before)
      × ((run (cancel_job (run empty to_running) cancel 500).1 []).jobs "j1" ≡ Slot.value after)
      × WasCancelled cancel 500 before after)
    × (step
          (run (cancel_job (run empty to_running) cancel 500).1 [])
          (report_call caller good_report 600)
        ≡ run (cancel_job (run empty to_running) cancel 500).1 [])
unfolding running_jobs
cancel_wins_example =
    cancel_wins (run empty to_running) cancel 500 [] (report_call caller good_report 600) refl refl

report_final_example :
    report_job
      (run (report_job (run empty to_running) caller good_report 1000).1 [])
      caller
      bad_report
      1200
    ≡ (error report_conflict, run (report_job (run empty to_running) caller good_report 1000).1 [])
unfolding running_jobs
report_final_example =
    report_final (run empty to_running) caller good_report 1000 [] bad_report 1200 refl

report_retry_example :
    report_job
      (run
        (report_job (run empty to_running) caller good_report 1000).1
        (record_call caller delivery "" 1100 ∷ []))
      caller
      good_report
      1200
    ≡ (
      done ReportReply.again,
      run
          (report_job (run empty to_running) caller good_report 1000).1
          (record_call caller delivery "" 1100 ∷ []),
    )
unfolding running_jobs
report_retry_example =
    report_retry (run empty to_running) caller good_report 1000
      (record_call caller delivery "" 1100 ∷ []) 1200 refl

fence_blocks_example :
    ((x : ScriptError) × (claim_job
          (run
            (acquire_fence (run empty to_created) "t1" "tok" 1000 1001).1
            (touch_call "t1" "tok" 2000 ∷ []))
          claim
          3000
        ≡ (
          error x,
          run
              (acquire_fence (run empty to_created) "t1" "tok" 1000 1001).1
              (touch_call "t1" "tok" 2000 ∷ []),
        )))
    × ((create_job
          (run
            (acquire_fence (run empty to_created) "t1" "tok" 1000 1001).1
            (touch_call "t1" "tok" 2000 ∷ []))
          job
          "q2"
          "2-0"
          3000).0
        ≢ done make)
    × ((create_job
          (run
            (acquire_fence (run empty to_created) "t1" "tok" 1000 1001).1
            (touch_call "t1" "tok" 2000 ∷ []))
          job
          "q2"
          "2-0"
          3000).1
        ≡ run
            (acquire_fence (run empty to_created) "t1" "tok" 1000 1001).1
            (touch_call "t1" "tok" 2000 ∷ []))
unfolding running_jobs
fence_blocks_example =
    fence_blocks (run empty to_created) "t1" "tok" 1000 1001 3000 (touch_call "t1" "tok" 2000 ∷ [])
      claim job "q2" "2-0" refl (omega arith) (omega arith) (refl, tt) refl refl

claim_to_report_example :
    ((start_job (claim_job (run empty to_created) claim 200).1 (claimant claim) 300).0
      ≡ done (fresh (started first_attempt 300)))
    × ((report_job
          (start_job (claim_job (run empty to_created) claim 200).1 (claimant claim) 300).1
          (claimant claim)
          good_report
          1000).0
        ≡ done reported)
    × ((j : Job) × ((report_job
              (start_job (claim_job (run empty to_created) claim 200).1 (claimant claim) 300).1
              (claimant claim)
              good_report
              1000).1.jobs
            "j1"
          ≡ Slot.value j)
        × (j.status ≡ JobStatus.terminal)
        × (j.latest_attempt_id ≡ some "a1"))
    × ((ended : Attempt) × ((report_job
              (start_job (claim_job (run empty to_created) claim 200).1 (claimant claim) 300).1
              (claimant claim)
              good_report
              1000).1.attempts
            "a1"
          ≡ Slot.value ended)
        × HasEnded ended good_report 300 1000)
unfolding running_jobs
claim_to_report_example =
    claim_to_report (run empty to_created) claim 200 300 1000 first_attempt good_report refl refl
      refl refl

cancel_succeeds_example : (cancel_job (run empty to_running) cancel 500).0 ≡ done cancelled
unfolding running_jobs
cancel_succeeds_example =
    cancel_succeeds (run empty to_running) cancel 500 active_job
      (run-IsConsistent empty to_running empty-IsConsistent) refl refl refl refl refl refl

step-JobMove_example :
    JobMove
      ((run empty to_created).jobs "j1")
      ((step (run empty to_created) (claim_call claim 200)).jobs "j1")
step-JobMove_example = step-JobMove (run empty to_created) (claim_call claim 200) "j1"

step-AttemptMove_example :
    AttemptMove
      ((run empty to_claimed).attempts "a1")
      ((step (run empty to_claimed) (start_call caller 300)).attempts "a1")
step-AttemptMove_example = step-AttemptMove (run empty to_claimed) (start_call caller 300) "a1"

submit_repeat_example :
    submit_job
      (run
        (create_job empty job (request_key "u1" "w1" "r1") "1-0" 100).1
        (claim_call claim 200 ∷ []))
      (record job { job_id = "j2" })
      "r1"
      "2-0"
      300
      (start_call caller 300 ∷ [])
    ≡ (
      repeated "j1" (some "1-0"),
      run
          (run
            (create_job empty job (request_key "u1" "w1" "r1") "1-0" 100).1
            (claim_call claim 200 ∷ []))
          (start_call caller 300 ∷ []),
    )
unfolding running_jobs
submit_repeat_example =
    submit_repeat empty job (record job { job_id = "j2" }) "r1" "1-0" "2-0" 100 300
      (claim_call claim 200 ∷ []) (start_call caller 300 ∷ []) refl refl refl refl
