-- ===== src/Tests.antt =====
-- Runs at concrete inputs, for each part of the program.
mod OAuthData
mod OAuth
mod JobsData
mod Jobs
mod TargetDelete
mod Enrollments
mod Onboarding
mod JobService
