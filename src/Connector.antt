-- ===== src/Connector.antt =====
-- The device enrolments of services/server/src/connector/enrollment-store.ts.
pub mod UserCode
pub mod Enrollments
