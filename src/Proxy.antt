-- ===== src/Proxy.antt =====
-- The budget proxy between the coding agent and the model providers:
-- wevibe_bench/adapters/openrouter_proxy.py.
pub mod Errors
pub mod Double
pub mod Profile
pub mod Policy
pub mod Cost
pub mod Pricing
pub mod Ledger
pub mod Logger
pub mod Server
pub mod Tests
