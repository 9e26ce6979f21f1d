-- ===== src/Worker.antt =====
-- apps/execution-worker/src
pub mod State
pub mod Effects
pub mod Keeps
pub mod Triples
pub mod Outbox
pub mod Nodes
pub mod Graph
pub mod Events
pub mod Trace
pub mod NodeRuns
pub mod Execution
pub mod Command
pub mod Delivery
pub mod Enrichment
pub mod Dispatcher
pub mod Safe
pub mod Fixtures
pub mod Topology
mod Tests
mod Runs
mod GraphTests
mod EnrichmentTests
mod DispatcherTests
