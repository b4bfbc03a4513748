-- ===== src/Onboarding/Histories.antt =====
-- What one part of a method of services/server/src/onboarding does to the table of flows, and the
-- table after any parts in any order.
use chief_everything_officer.Base.{ℕ, String, true, Option, some, List, [], ◌∷◌, ◌≡◌, refl}
use chief_everything_officer.Onboarding.{
  FlowState, Flow, awaiting_github_access, provisioning, awaiting_repository_restriction,
  awaiting_repository_choice, recovery_required, ready_to_resume,
}
use chief_everything_officer.Onboarding.Store.{
  Field, keep, assign, get_or_create_active_flow_in_tx, cleanup_expired, delete_flow,
}
use chief_everything_officer.Onboarding.Service.{ServiceState}
use chief_everything_officer.Onboarding.Service.Sections.{created}
use chief_everything_officer.Onboarding.Service.Bootstrap.{is_ready}
use chief_everything_officer.Onboarding.Service.Calls.{
  ServiceCall, opens, cleans, updates, deletes, chooses, resolves, starts_provisioning,
  finishes_provisioning, finishes_recovery, finishes_verification, finishes_bootstrap,
  finishes_retry, finishes_deriving, step, run,
}
use chief_everything_officer.Onboarding.Changes.{
  IsReady, Patched, untouched, patched_by, update_flow-Patched, submit_repository_choice-Patched,
  start_provisioning-Patched, resolve-Patched, finish_provisioning-Patched, finish_recovery-Patched,
  finish_verification-Patched, finish_bootstrap-Patched, finish_retry-Patched,
  finish_deriving-Patched,
}
use chief_everything_officer.Onboarding.Active.{
  IsTable, IsUnclashed, IsTable-IsUnclashed, IsUnclashed-IsTable, write-IsUnclashed,
  open-IsUnclashed, delete-IsUnclashed,
}

-- `P` is asked of the patches, and `D` of the flows that are deleted.
module _ (P : String → Field (Option String) → Field FlowState → Type 0) (D : String → Type 0) where
  -- Every patch that the call may write fits.
  abbrev pub Fits : ServiceCall → Type 0
  Fits (opens user subject ttl host uuid now) = Unit
  Fits (cleans now) = Unit
  Fits (updates id p now) = P id p.workspace_id p.state
  Fits (deletes id) = D id
  Fits (chooses id user name now) = P id keep (assign awaiting_github_access)
  Fits (resolves id answers now) = P id keep keep
  Fits (starts_provisioning id user now) = P id keep (assign provisioning)
  Fits (finishes_provisioning f c now) =
      ((w r i : String)
        → c ≡ created w r i
        → P f.id (assign (some w)) (assign awaiting_repository_restriction))
      × (P f.id keep (assign recovery_required) × P f.id keep (assign awaiting_repository_choice))
  Fits (finishes_recovery id w i now) =
      P id (assign (some w)) (assign awaiting_repository_restriction)
  Fits (finishes_verification id w a now) = P id keep keep × P id keep (assign provisioning)
  Fits (finishes_bootstrap id r now) =
      (IsReady r → P id keep (assign ready_to_resume)) × P id keep (assign recovery_required)
  Fits (finishes_retry id r now) = IsReady r → P id keep (assign ready_to_resume)
  Fits (finishes_deriving f r now) = is_ready r ≡ true → P f.id keep (assign ready_to_resume)

  pub data Effect (before after : List Flow) : Type 0 where
    opening :
        (user subject : String) (ttl : ℕ) (host : Option String) (uuid : String) (now : ℕ)
        → after ≡ (get_or_create_active_flow_in_tx before user subject ttl host uuid now).0
        → Effect before after
    cleaning : (now : ℕ) → after ≡ cleanup_expired before now → Effect before after
    deleting : (id : String) → D id → after ≡ (delete_flow before id).0 → Effect before after
    patching : Patched P before after → Effect before after

  pub step-Effect : (s : ServiceState) (c : ServiceCall) → Fits c → Effect s.flows (step s c).flows
  unfolding step
  step-Effect s (opens user subject ttl host uuid now) h =
      opening user subject ttl host uuid now refl
  step-Effect s (cleans now) h = cleaning now refl
  step-Effect s (updates id p now) h = patching (update_flow-Patched P s.flows id p now h)
  step-Effect s (deletes id) h = deleting id h refl
  step-Effect s (chooses id user name now) h =
      patching (submit_repository_choice-Patched P s id user name now h)
  step-Effect s (resolves id answers now) h = patching (resolve-Patched P s id answers now h)
  step-Effect s (starts_provisioning id user now) h =
      patching (start_provisioning-Patched P s id user now h)
  step-Effect s (finishes_provisioning f c now) h =
      patching (finish_provisioning-Patched P s f c now h.0 h.1.0 h.1.1)
  step-Effect s (finishes_recovery id w i now) h =
      patching (finish_recovery-Patched P s id w i now h)
  step-Effect s (finishes_verification id w a now) h =
      patching (finish_verification-Patched P s id w a now h.0 h.1)
  step-Effect s (finishes_bootstrap id r now) h =
      patching (finish_bootstrap-Patched P s id r now h.0 h.1)
  step-Effect s (finishes_retry id r now) h = patching (finish_retry-Patched P s id r now h)
  step-Effect s (finishes_deriving f r now) h = patching (finish_deriving-Patched P s f r now h)

abbrev Any : String → Field (Option String) → Field FlowState → Type 0
Any id w st = Unit

abbrev pub AnyFlow : String → Type 0
AnyFlow id = Unit

Fits-Any : (c : ServiceCall) → Fits Any AnyFlow c
Fits-Any (opens user subject ttl host uuid now) = tt
Fits-Any (cleans now) = tt
Fits-Any (updates id p now) = tt
Fits-Any (deletes id) = tt
Fits-Any (chooses id user name now) = tt
Fits-Any (resolves id answers now) = tt
Fits-Any (starts_provisioning id user now) = tt
Fits-Any (finishes_provisioning f c now) = (λ w r i e. tt, (tt, tt))
Fits-Any (finishes_recovery id w i now) = tt
Fits-Any (finishes_verification id w a now) = (tt, tt)
Fits-Any (finishes_bootstrap id r now) = (λ h. tt, tt)
Fits-Any (finishes_retry id r now) = λ h. tt
Fits-Any (finishes_deriving f r now) = λ h. tt

Effect-IsUnclashed :
    (before after : List Flow)
    → Effect Any AnyFlow before after
    → IsUnclashed before
    → IsUnclashed after
unfolding cleanup_expired delete_flow
Effect-IsUnclashed before after (opening user subject ttl host uuid now e) h =
    rw e (open-IsUnclashed before user subject ttl host uuid now h)
Effect-IsUnclashed before after (cleaning now e) h = rw e (delete-IsUnclashed _ before h)
Effect-IsUnclashed before after (deleting id d e) h = rw e (delete-IsUnclashed _ before h)
Effect-IsUnclashed before after (patching (untouched e)) h = rw e h
Effect-IsUnclashed before after (patching (patched_by id p now f fits there wrote)) h =
    write-IsUnclashed _ before after wrote h

run-IsUnclashed :
    (s : ServiceState) (cs : List ServiceCall) → IsUnclashed s.flows → IsUnclashed (run s cs).flows
unfolding run
run-IsUnclashed s [] h = h
run-IsUnclashed s (c ∷ cs) h =
    run-IsUnclashed (step s c) cs
      (Effect-IsUnclashed s.flows _ (step-Effect Any AnyFlow s c (Fits-Any c)) h)

-- However the parts of the methods, and updates and deletions from elsewhere, interleave, no two rows
-- of the table have one identifier and no user has two flows that are not completed, if the table was
-- so.
pub run-IsTable :
    (s : ServiceState) (cs : List ServiceCall) → IsTable s.flows → IsTable (run s cs).flows
run-IsTable s cs h =
    IsUnclashed-IsTable (run s cs).flows (run-IsUnclashed s cs (IsTable-IsUnclashed s.flows h))
