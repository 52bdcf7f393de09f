-- ===== src/Cli.antt =====
-- cmd/kubectl-budget: the commands `restore`, `status` and `report`. The flags of cobra and the
-- widths of the printed columns are not modelled.
pub mod Console
pub mod Validation
pub mod Restore
pub mod Report
pub mod Status
