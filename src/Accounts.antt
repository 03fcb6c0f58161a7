-- ===== src/Accounts.antt =====
-- Accounts and their plans: app/accounts.
pub mod Plans
pub mod Capacity
