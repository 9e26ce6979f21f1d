-- ===== src/Contracts.antt =====
-- packages/contracts/src: what the services share.
pub mod Message
pub mod Workflow
pub mod Definition
