-- ===== src/Examples.antt =====
-- The theorems at concrete inputs, over in-memory collections.
pub mod Stocked
pub mod Carts
pub mod Limits
pub mod Checkouts
pub mod Logins
