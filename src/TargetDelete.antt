-- ===== src/TargetDelete.antt =====
-- TargetDeleteCoordinator of services/server/src/jobs/target-delete.ts. Its store calls interleave
-- with those of others: at each `await` the next gap of the world runs.
pub mod World
pub mod Scan
pub mod Coordinator
