-- ===== src/Tests.antt =====
-- Runs of the definitions on concrete data, and the theorems at such data.
pub mod Config
pub mod Queue
pub mod Segments
pub mod Sessions
pub mod Replicas
pub mod Services
pub mod Rounds
pub mod Deliveries
pub mod Boots
pub mod Control
pub mod Connections
