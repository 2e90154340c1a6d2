-- ===== src/Compression/Once.antt =====
-- No node is reported twice in a run of the compression: a node that has been reported carries the label of success,
-- with which no list of candidates takes it up again.
pub mod Nodes
pub mod World
pub mod State
pub mod Calls
pub mod Queue
pub mod ScaleDown
pub mod Selection
pub mod Events
pub mod Run
mod Tests
