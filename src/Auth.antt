-- ===== src/Auth.antt =====
-- Authentication: app/auth.
pub mod RateLimit
pub mod Tokens
