-- ===== src/Examples.antt =====
-- Runs of the model over a small cluster in memory, and the theorems at concrete data.
mod Memory
mod Scaling
mod Reconciling
mod Statuses
mod Life
mod Commands
mod Starting
mod Phases
mod Copies
mod Merging
mod Reports
