-- ===== src/Examples.antt =====
-- The theorems applied to concrete values, and runs of the definitions.
mod Values
mod Filter
mod Control
mod Models
mod Api
mod StateProcessor
mod Gateway
mod Tasks
