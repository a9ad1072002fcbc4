-- ===== src/InstanceTypes.antt =====
-- pkg/providers/instancetype: the types that the cloud offers, and their offerings.
pub mod Requirements
pub mod Offerings
pub mod NewType
pub mod Overhead
pub mod Prices
pub mod Provider
pub mod Configuration
pub mod Generator
pub mod Laws
