-- ===== src/Download.antt =====
-- client/download: streaming a response body to a file, and the queue of asynchronous downloads.
pub mod Model
pub mod Files
pub mod Writers
pub mod Handle
pub mod Queue
pub mod Async
pub mod Steps
