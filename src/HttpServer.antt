-- ===== src/HttpServer.antt =====
-- inc/us/HttpServer.hpp and src/HttpServer.cpp.
pub mod Split
pub mod Query
pub mod Regex
pub mod Wildcard
pub mod Routes
pub mod Beast
pub mod Request
pub mod Session
pub mod Listener
pub mod Service
pub mod Status
pub mod Lifecycle
mod Site
