-- ===== src/Cart.antt =====
-- The cart: src/modules/cart.
pub mod Entity
pub mod Repository
pub mod View
pub mod Service
pub mod Laws
pub mod Shape
pub mod Versions
pub mod Limit
pub mod Totals
pub mod Requests
