-- ===== src/Auth.antt =====
-- Registration, logins and tokens: src/modules/auth.
pub mod Entity
pub mod Repository
pub mod Service
pub mod Accounts
pub mod Ending
pub mod Spending
pub mod Steps
pub mod Keeping
pub mod Calls
pub mod Rotating
pub mod Jwt
