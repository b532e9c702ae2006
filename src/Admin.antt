-- ===== src/Admin.antt =====
-- The admin console's authentication: devin_proxy/admin_ctx.py.
pub mod Login
pub mod Session
pub mod Lockout
pub mod Tokens
