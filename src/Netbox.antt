-- ===== src/Netbox.antt =====
-- internal/netbox: the clients, and the four services over them.
pub mod Requests
pub mod Clients
pub mod Virtualization
pub mod Dcim
pub mod Ipam
pub mod Extras
pub mod Emitted
pub mod Traced
