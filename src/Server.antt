-- ===== src/Server.antt =====
-- src/server.c: the parts of the HTTP server.
pub mod Auth
pub mod Stats
pub mod Acl
pub mod Connections
pub mod Route
pub mod Submit
pub mod Finish
pub mod Reply
pub mod Whatif
pub mod Stream
pub mod StreamLaws
pub mod StreamRun
pub mod Report
pub mod Events
pub mod EventLaws
pub mod Attach
pub mod EventRun
pub mod Loop
pub mod LoopLaws
pub mod Handlers
mod Tests
mod StreamTests
mod ReportTests
mod JobTests
mod ReplyTests
mod EventTests
