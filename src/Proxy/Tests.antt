-- ===== src/Proxy/Tests.antt =====
-- The proxy on a small registry and a small ledger, with amounts in millionths of a dollar.
pub mod Data
mod Ledgers
mod Requests
mod Serving
