-- ===== src/Tests.antt =====
-- Runs of the definitions, and the theorems at concrete inputs.
mod Trees
pub mod Rows
mod Retained
mod Wire
mod Sessions
pub mod Systems
mod Connections
mod Startup
mod Delivery
