-- ===== src/Client.antt =====
-- src/Client and the two programs of src/App: the client process, and the command lines.
pub mod Receivers
pub mod Process
