-- ===== src/Tests.antt =====
-- Concrete runs of the modelled code, one module for each part.
mod Stream
mod Log
mod Replay
mod Access
mod Ids
mod Query
mod Retry
mod References
mod Session
