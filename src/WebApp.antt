-- ===== src/WebApp.antt =====
-- webapp: the pages that masters use inside Telegram, as far as they decide something. A page is a
-- record of its state, and every handler a function on it. Case is that of the letters of ASCII.
pub mod Validation
pub mod NewOrder
pub mod MyOrders
