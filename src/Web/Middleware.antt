-- ===== src/Web/Middleware.antt =====
-- web/middleware.
pub mod Cors
pub mod Csrf
pub mod Errors
pub mod Logger
pub mod Panics
pub mod Stack
pub mod Usual
pub mod Outside
