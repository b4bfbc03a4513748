-- ===== src/Jobs/Scripts.antt =====
-- What the Lua scripts of services/server/src/jobs/v2-assignment-script.ts share. A script runs
-- atomically: it is a function of the Redis state and the Redis clock.
pub mod Create
pub mod Claim
pub mod Start
pub mod Report
pub mod Cancel
pub mod Record
pub mod Fences
pub mod Queue
use Prim.Native.String.{len}
use chief_everything_officer.Base.{
  ℕ, String, Bool, true, false, not, Option, none, some, ◌==◌, ◌&&◌, ◌||◌, ◌-◌, ltb, nat_eq,
  holds_text, if◌then◌else◌,
}
use chief_everything_officer.Base.Redis.{Slot}
use chief_everything_officer.Jobs.Records.{
  Job, Attempt, Fence, AttemptPhase, Stamp, is_claimed, is_running, is_number, is_null,
}

-- TARGET_DELETE_FENCE_TTL_MS.
abbrev pub fence_ttl_ms : ℕ
fence_ttl_ms = 60000

-- The fence at a key as GET sees it: an expired key is gone.
abbrev pub unexpired_fence : ℕ → Slot Fence → Slot Fence
unexpired_fence now (Slot.value f) = if ltb now f.expires_at_ms then Slot.value f else Slot.missing
unexpired_fence now s = s

abbrev pub fence_holds : ℕ → Slot Fence → Bool
fence_holds now (Slot.value f) = ltb (now - f.started_ms) fence_ttl_ms
fence_holds now Slot.malformed = ltb now fence_ttl_ms
fence_holds now s = false

-- The create and claim scripts' test: `now_ms - fence_started < 60000`, where a fence without a
-- separator has started at 0.
unfoldable pub is_fenced : ℕ → Slot Fence → Bool
is_fenced now s = fence_holds now (unexpired_fence now s)

-- A text of 64 bytes.
unfoldable pub is_digest : Option String → Bool
is_digest none = false
is_digest (some s) = nat_eq (len s) 64

abbrev pub is_nonempty : Option String → Bool
is_nonempty none = false
is_nonempty (some s) = not (s == "")

-- The shape that the start and report scripts ask of a stored attempt.
unfoldable pub is_sound : Attempt → Bool
is_sound a =
    nat_eq a.schema_version 1
    && (is_number a.claimed_at_ms
        && (is_nonempty a.target_binding_id
            && (is_digest a.claim_token_sha256
                && (not (is_claimed a.phase && not (is_null a.started_at_ms))
                    && not (is_running a.phase && not (is_number a.started_at_ms))))))

-- The attempt is the named one, of this job, device and token.
unfoldable pub is_owned : Attempt → Job → String → String → String → Bool
is_owned a job attempt_id device_id token =
    a.attempt_id == attempt_id
    && (a.job_id == job.job_id
        && (a.workspace_id == job.workspace_id
            && (a.target_id == job.target_id
                && (a.device_id == device_id && holds_text a.claim_token_sha256 token))))
