-- ===== src/Server.antt =====
-- src/Server: the server process and its threads.
pub mod State
pub mod Messages
pub mod Choice
pub mod Controller
pub mod Worker
pub mod System
pub mod Induction
pub mod Locks
pub mod Births
pub mod Handshake
pub mod Counters
pub mod Handlers
pub mod Runs
pub mod Jobs
pub mod Files
pub mod Execution
pub mod Startup
pub mod Cleanup
pub mod QueueSafety
pub mod Orderly
pub mod Once
pub mod Races
pub mod Answers
pub mod Shutdown
