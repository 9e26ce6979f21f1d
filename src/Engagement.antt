-- ===== src/Engagement.antt =====
-- Who may be written to, when, and which leads qualify: apps/execution-worker/src/engagement and
-- qualification, and apps/api/src/modules/engagement.
pub mod Policy
pub mod Cadence
pub mod Qualification
pub mod Tables
pub mod Enroll
mod Tests
