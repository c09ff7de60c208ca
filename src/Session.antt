-- ===== src/Session.antt =====
-- The commit of src/datacrystal/_store.py, from the live entities to the storage and the consumers.
pub mod Live
pub mod Reach
pub mod Graph
pub mod Encode
pub mod Pending
pub mod Capture
pub mod Commit
pub mod Verbs
pub mod Columns
pub mod Walk
pub mod Labelled
pub mod Keys
pub mod Buffers
pub mod Frame
pub mod Taken
pub mod Encoding
pub mod Outcome
pub mod Sequence
pub mod Typed
pub mod Written
pub mod Effect
pub mod Restore
pub mod Failure
pub mod Stuck
pub mod Late
pub mod Fuel
pub mod Weights
pub mod Rounds
pub mod Finish
