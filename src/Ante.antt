-- ===== src/Ante.antt =====
-- The transaction checks of app/ante.
pub mod Authz
pub mod Handlers
pub mod Options
pub mod Router
pub mod Tests
