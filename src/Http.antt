-- ===== src/Http.antt =====
-- The web server of http_server/.
pub mod Text
pub mod Request
pub mod Response
pub mod Client
pub mod Upload
pub mod Worker
pub mod Server
pub mod Logging
pub mod System
pub mod Life
pub mod Main
mod Tests
