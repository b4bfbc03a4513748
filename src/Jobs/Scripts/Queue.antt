-- ===== src/Jobs/Scripts/Queue.antt =====
-- pruneTargetQueue of services/server/src/jobs/v2-store.ts. A ZREM on a key of another type is an
-- exception of Redis, which leaves the state: it counts as nothing removed.
use chief_everything_officer.Base.{ℕ, String, List, [], ◌∷◌, ◌-◌, length}
use chief_everything_officer.Base.Redis.{Slot, Zset, put, zrem}
use chief_everything_officer.Jobs.Records.{Redis}

-- ZREM of several members.
unfoldable pub zrem_all : List String → Slot Zset → Slot Zset
zrem_all [] z = z
zrem_all (m ∷ ms) z = zrem_all ms (zrem m z)

abbrev pub members : Slot Zset → ℕ
members (Slot.value z) = length z
members _ = 0

unfoldable pub prune_target_queue : Redis → String → List String → ℕ × Redis
prune_target_queue r target [] = (0, r)
prune_target_queue r target (id ∷ ids) =
    let old = r.queues target in
    let new = zrem_all (id ∷ ids) old in
    (members old - members new, record r { queues = put target new r.queues })
