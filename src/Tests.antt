-- ===== src/Tests.antt =====
-- Runs of the model on small inputs: each applies a theorem at values where its conditions hold.
mod Data
mod Money
mod Accounts
mod Pricing
mod Payments
mod Allocations
mod Purchases
mod Tasks
mod Proofs
