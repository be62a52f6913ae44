-- ===== src/Download.antt =====
-- The download service: service/download/DownloadService.h and DownloadService.cpp.
pub mod Task
mod Tests
pub mod Table
pub mod Await
pub mod Cancels
