-- ===== src/Api.antt =====
-- apps/api/src/modules
pub mod Workflows
pub mod Engagement
pub mod Events
mod EngagementTests
mod Tests
