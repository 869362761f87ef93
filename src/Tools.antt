-- ===== src/Tools.antt =====
-- src/Tools: the string helpers and the waiting buffer queue.
pub mod StringEditor
pub mod WaitingBufferQueue
