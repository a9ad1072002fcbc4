-- ===== src/Pricing.antt =====
-- pkg/providers/pricing: the prices of instance types and disks.
pub mod Generator
pub mod Provider
pub mod Table
pub mod Laws
