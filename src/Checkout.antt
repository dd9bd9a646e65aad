-- ===== src/Checkout.antt =====
-- The checkout: src/modules/checkout.
pub mod Entity
pub mod Adapters
pub mod Wired
pub mod Ports
pub mod Repository
pub mod Checking
pub mod Service
pub mod Reserving
pub mod Laws
pub mod Follows
pub mod Effects
pub mod Keeping
pub mod Live
pub mod Lifecycle
pub mod Releasing
pub mod Stocked
pub mod Sweeping
pub mod Overlap
pub mod Pricing
pub mod Creating
pub mod Recreating
pub mod Cancelling
