-- ===== src/Jobs.antt =====
-- Jobs and attempts of services/server/src/jobs: the records in Redis, the Lua scripts that move
-- them, and what the scripts keep.
pub mod Records
pub mod Scripts
pub mod Machine
pub mod History
pub mod Claims
pub mod Final
pub mod Reports
pub mod Fenced
pub mod Progress
pub mod Consistent
pub mod Submit
