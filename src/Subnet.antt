-- ===== src/Subnet.antt =====
-- pkg/providers/subnet/subnet.go: the subnet provider.
pub mod Capacity
pub mod Provider
