-- ===== src/Tests.antt =====
-- Runs of the model at concrete inputs: the unit test of the repository, and the theorems that have
-- hypotheses, applied where the hypotheses hold.
pub mod Sim
pub mod Logs
pub mod Clients
pub mod Configs
pub mod Runs
pub mod Screens
pub mod Rooms
pub mod Profiles
pub mod Ways
pub mod Pipes
pub mod Groups
pub mod Leaving
