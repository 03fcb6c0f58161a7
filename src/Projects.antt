-- ===== src/Projects.antt =====
-- Projects: app/projects, and the grants of app/accounts/members.py.
pub mod Access
pub mod Modules
pub mod Service
