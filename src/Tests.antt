-- ===== src/Tests.antt =====
-- Runs of the modelled code on small inputs, one file for each part.
pub mod Tree
pub mod Header
pub mod Counter
pub mod Pool
pub mod Sweep
pub mod Slots
pub mod Arrivals
pub mod Serial
pub mod Classes
pub mod Metadata
pub mod Locks
pub mod Callers
pub mod Driver
pub mod Flags
pub mod Insertions
pub mod Receives
pub mod Rounds
pub mod Reduced
