-- ===== src/Controller.antt =====
-- internal/controller: the reconcilers, and what they share.
pub mod Constants
pub mod Hostname
pub mod Update
pub mod IpPool
pub mod IpUpdate
pub mod Selected
pub mod IronCore
pub mod Metal3
pub mod System
