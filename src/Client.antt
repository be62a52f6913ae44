-- ===== src/Client.antt =====
-- The command-line client, client/download.cpp.
pub mod Options
pub mod Bar
pub mod Waiting
mod Tests
