-- ===== src/Http.antt =====
-- service/http: the HTTP/1.1 client and the http service.
pub mod Code
pub mod Reader
pub mod Body
pub mod Url
pub mod Headers
pub mod Response
pub mod Connect
pub mod Exchange
pub mod Conn
pub mod Get
mod Tests
