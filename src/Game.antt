-- ===== src/Game.antt =====
-- GameLogic/: the messages and their byte formats, and replication.
pub mod Types
pub mod FixedPoint
pub mod Map
pub mod Components
pub mod Simulation
pub mod BinaryIo
pub mod Weapons
pub mod Replication
pub mod Commands
pub mod TimeSync
pub mod Events
pub mod NetworkEvents
pub mod NetworkProtocol
pub mod Serialization
pub mod SnapshotBaselineCache
pub mod ReplicationPlanner
pub mod InterestManagement
pub mod SnapshotDelta
pub mod LagCompensation
pub mod Tests
mod ReplicationTests
mod SimulationTests
