-- ===== src/Actions.antt =====
-- internal/actions: scaling Deployments down and restoring them, and the notification.
pub mod ScaleDown
pub mod Suspend
pub mod Notify
pub mod Life
