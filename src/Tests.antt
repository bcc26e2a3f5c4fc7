-- ===== src/Tests.antt =====
-- Runs of the theorems at concrete values, over the samples of Tests/Samples.antt.
pub mod Samples
pub mod Tables
pub mod Reads
pub mod Bands
pub mod Tasks
pub mod Services
pub mod Flows
pub mod Ballots
pub mod Starting
pub mod Charting
pub mod Mocking
pub mod Interleaving
pub mod Repository
pub mod TwoUpdates
