-- ===== src/Shop.antt =====
-- tracker.js: the events of the shop's pages besides InitiateCheckout, by the listeners and the parts
-- of the script that send them.
pub mod View
pub mod AddToCart
pub mod Cart
pub mod Named
pub mod Again
pub mod Renewed
pub mod Laws
pub mod Identity
pub mod Handlers
