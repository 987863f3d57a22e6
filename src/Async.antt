-- ===== src/Async.antt =====
-- async.go and stream.go: the asynchronous connection and its streams. The names of its parts are
-- those of the children.
pub mod Framing
pub mod State
pub mod Start
pub mod Sound
pub mod Ping
pub mod Write
pub mod Accounting
pub mod Close
pub mod Stale
pub mod Receive
pub mod Session
pub mod Samples
pub mod Flow
pub mod Waiting
mod Examples
