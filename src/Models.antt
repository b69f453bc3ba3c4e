-- ===== src/Models.antt =====
-- The data of NetBox (package `models` of go-netbox-go) and of Kubernetes, with the fields that the
-- program reads or writes. A nested object that NetBox leaves out has the id 0 and empty texts.
pub mod Netbox
pub mod Kubernetes
