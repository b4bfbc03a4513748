-- ===== src/Jobs/Scripts/Fences.antt =====
-- The delete fence of services/server/src/jobs/v2-store.ts, and V2_TOUCH_DELETE_FENCE_SCRIPT of
-- v2-assignment-script.ts. `clock` is the server's own clock, `now` that of Redis. A call on a key
-- of another type is an exception of Redis, which leaves the state: it counts as `false`.
use chief_everything_officer.Base.{ℕ, String, Bool, true, false, ◌==◌, ◌+◌, if◌then◌else◌}
use chief_everything_officer.Base.Redis.{Slot, put}
use chief_everything_officer.Jobs.Records.{Fence, Redis}
use chief_everything_officer.Jobs.Scripts.{fence_ttl_ms, unexpired_fence}

abbrev pub new_fence : ℕ → ℕ → String → Fence
new_fence clock now token = record {
  started_ms = clock;
  token = token;
  expires_at_ms = now + fence_ttl_ms;
}

abbrev pub with_fence : Redis → String → Fence → Redis
with_fence r target f = record r { fences = put target (Slot.value f) r.fences }

abbrev pub if_missing : Slot Fence → Redis → Redis → Bool × Redis
if_missing Slot.missing r written = (true, written)
if_missing _ r written = (false, r)

abbrev pub if_there : Slot Fence → Redis → Redis → Bool × Redis
if_there Slot.missing r written = (false, r)
if_there _ r written = (true, written)

-- SET NX PX.
unfoldable pub acquire_fence : Redis → String → String → ℕ → ℕ → Bool × Redis
acquire_fence r target token clock now =
    if_missing (unexpired_fence now (r.fences target)) r
      (with_fence r target (new_fence clock now token))

-- SET XX PX.
unfoldable pub takeover_fence : Redis → String → String → ℕ → ℕ → Bool × Redis
takeover_fence r target token clock now =
    if_there (unexpired_fence now (r.fences target)) r
      (with_fence r target (new_fence clock now token))

abbrev pub owns : Slot Fence → String → Bool
owns (Slot.value f) token = f.token == token
owns _ token = false

-- Only the owner re-arms the fence, with both its times.
unfoldable pub touch_fence : Redis → String → String → ℕ → Bool × Redis
touch_fence r target token now =
    if owns (unexpired_fence now (r.fences target)) token
    then (true, with_fence r target (new_fence now now token))
    else (false, r)

-- The GET of a release: whether the caller goes on to the DEL.
unfoldable pub release_read : Redis → String → String → ℕ → Bool
release_read r target token now = owns (unexpired_fence now (r.fences target)) token

-- The DEL of a release, which does not look at the token again.
unfoldable pub release_delete : Redis → String → Redis
release_delete r target = record r { fences = put target Slot.missing r.fences }
