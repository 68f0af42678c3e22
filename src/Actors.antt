-- ===== src/Actors.antt =====
-- The actors that run the intersection over the blocks of a file (src/PSI/psi_actors.py).
pub mod Dispatch
pub mod Dispatched
pub mod Schedule
pub mod Counting
pub mod Scheduled
pub mod Tracked
pub mod Rounds
pub mod Waited
pub mod Started
pub mod Paths
pub mod Inputs
pub mod Columns
pub mod Reading
pub mod Action
pub mod Joined
pub mod Parties
pub mod Output
pub mod Written
pub mod Repartition
pub mod App
pub mod Collected
pub mod Result
pub mod Ran
pub mod Whole
pub mod Buckets
pub mod Tagged
pub mod Split
pub mod Repartitioned
mod JoinTests
mod Tests
mod AppTests
