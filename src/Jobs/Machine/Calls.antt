-- ===== src/Jobs/Machine/Calls.antt =====
-- Sequences of calls on the job store of services/server/src/jobs/v2-store.ts: every script and
-- fence operation that writes, and the expiry of keys by the clock that each call carries.
use chief_everything_officer.Base.{ℕ, String, List, [], ◌∷◌}
use chief_everything_officer.Jobs.Records.{Job, Report, JobResult, Redis}
use chief_everything_officer.Jobs.Scripts.Create.{create_job}
use chief_everything_officer.Jobs.Scripts.Claim.{ClaimParams, claim_job}
use chief_everything_officer.Jobs.Scripts.Start.{Caller, start_job}
use chief_everything_officer.Jobs.Scripts.Report.{report_job}
use chief_everything_officer.Jobs.Scripts.Cancel.{CancelParams, cancel_job}
use chief_everything_officer.Jobs.Scripts.Record.{record_job_result}
use chief_everything_officer.Jobs.Scripts.Queue.{prune_target_queue}
use chief_everything_officer.Jobs.Scripts.Fences.{
  acquire_fence, takeover_fence, touch_fence, release_delete,
}

pub data JobCall : Type 0 where
  create_call : Job → String → String → ℕ → JobCall
  claim_call : ClaimParams → ℕ → JobCall
  start_call : Caller → ℕ → JobCall
  report_call : Caller → Report → ℕ → JobCall
  cancel_call : CancelParams → ℕ → JobCall
  record_call : Caller → JobResult → String → ℕ → JobCall
  acquire_call takeover_call : String → String → ℕ → ℕ → JobCall
  touch_call : String → String → ℕ → JobCall
  release_call : String → JobCall
  prune_call : String → List String → JobCall

unfoldable pub step : Redis → JobCall → Redis
step r (create_call job request_key entry_id now) = (create_job r job request_key entry_id now).1
step r (claim_call p now) = (claim_job r p now).1
step r (start_call c now) = (start_job r c now).1
step r (report_call c rep now) = (report_job r c rep now).1
step r (cancel_call p now) = (cancel_job r p now).1
step r (record_call c res mode now) = (record_job_result r c res mode now).1
step r (acquire_call target token clock now) = (acquire_fence r target token clock now).1
step r (takeover_call target token clock now) = (takeover_fence r target token clock now).1
step r (touch_call target token now) = (touch_fence r target token now).1
step r (release_call target) = release_delete r target
step r (prune_call target ids) = (prune_target_queue r target ids).1

unfoldable pub run : Redis → List JobCall → Redis
run r [] = r
run r (c ∷ cs) = run (step r c) cs
