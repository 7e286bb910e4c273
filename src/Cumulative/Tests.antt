-- ===== src/Cumulative/Tests.antt =====
-- Runs of the models on small inputs, and the theorems at inputs that meet their hypotheses.
mod Data
mod Run
mod Files
mod Cards
mod Sessions
