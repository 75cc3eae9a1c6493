-- ===== src/Worker.antt =====
-- src/worker.c: what the worker thread does with a job.
pub mod Accum
pub mod Run
pub mod Collects
pub mod Answer
pub mod Stream
pub mod Feed
pub mod FeedLaws
pub mod Settled
pub mod LongPiece
mod JobTests
pub mod Protocol
pub mod Owned
pub mod Frees
pub mod Abandoned
mod Tests
mod ProtocolTests
