-- ===== src/DataJoin.antt =====
-- The data join service (src/DataJoin/data_join).
pub mod Records
pub mod RawData
pub mod Loaded
pub mod Files
pub mod BlockManager
pub mod Search
pub mod Saved
pub mod Update
pub mod Restarted
pub mod BlockMaker
pub mod Made
pub mod Older
pub mod Finished
pub mod Joiner
pub mod Blocks
pub mod Opened
pub mod Yielded
pub mod Joining
pub mod Joined
pub mod Messages
pub mod ExampleIds
pub mod Delivery
pub mod Joins
pub mod Saver
pub mod SavedBlocks
pub mod Stored
pub mod Buffered
pub mod BlockConsumer
pub mod Manager
pub mod BlockProducer
pub mod Acquired
pub mod Produced
pub mod Closed
pub mod Indexed
pub mod Copies
pub mod Pipeline
mod Tests
mod JoinTests
mod SendTests
mod PipelineTests
