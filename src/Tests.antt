-- ===== src/Tests.antt =====
-- The theorems at concrete inputs, and runs of the model.
mod Scenario
mod Tools
mod Threads
mod Handlers
mod Jobs
mod Execution
mod Races
mod Wakeups
mod Shutdown
mod Conversation
mod Answers
mod Client
mod Cleanup
