-- ===== src/Tests.antt =====
-- Runs of the models on small inputs, and the theorems at concrete inputs that meet their
-- hypotheses.
mod Samples
mod Schedulers
mod Witnesses
mod Histories
mod Memory
mod Runs
mod Sessions
mod Engines
mod Workers
mod Models
