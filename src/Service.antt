-- ===== src/Service.antt =====
-- The http service: service/http/HttpService.h and service/http/HttpService.cpp.
pub mod Requests
pub mod Fetch
mod Tests
mod Files
