-- ===== src/Trainer.antt =====
-- src/Trainer/fl_comm_libs: what a training worker reads from its environment, how it finds its
-- peer and how it starts to train. A section takes what the code calls from elsewhere: the
-- environment, JSON, the coordinator, the file system, TensorFlow.
pub mod TfConfig
pub mod WorkerIds
pub mod Config
pub mod Configured
pub mod Pairing
pub mod Paired
pub mod Placed
pub mod Run
pub mod Running
pub mod Connect
pub mod Connected
pub mod CheckIds
mod Tests
