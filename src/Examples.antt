-- ===== src/Examples.antt =====
-- Runs of the handlers on a small database, and each theorem at an input that meets its
-- hypotheses.
pub mod Shop
mod Waiting
mod Confirmation
mod Orders
mod Suppliers
mod Others
mod Dialogue
mod Accounts
mod Entry
mod Figures
mod Pages
mod Texts
mod Panel
