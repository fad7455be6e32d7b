-- ===== src/Web.antt =====
-- The Go module web: what a handler sees and does (World), and the packages errs, mux, middleware,
-- web and server.
mod Tests
pub mod World
pub mod Context
pub mod Errs
pub mod Respond
pub mod Request
pub mod Validate
pub mod Mux
pub mod Status
pub mod Glob
pub mod Middleware
pub mod Server
