-- ===== src/Auth.antt =====
-- The module internal/module/auth: users, their sessions, and the tokens of programs.
pub mod Errors
pub mod Tokens
pub mod Users
pub mod Links
pub mod Sessions
pub mod Passwords
pub mod Accounts
