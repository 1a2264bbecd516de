-- ===== src/Moman/Invariant.antt =====
-- What holds of the stored objects between two rounds of the loop, in any history.
pub mod Entries
pub mod Base
pub mod Answers
pub mod Adding
pub mod Stopping
pub mod Handlers
pub mod Frames
pub mod Watching
pub mod Dispatch
pub mod Rounds
