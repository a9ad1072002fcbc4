-- ===== src/CloudProvider.antt =====
-- pkg/cloudprovider/cloudprovider.go.
pub mod Types
pub mod GroupLabels
pub mod Claim
pub mod Resolve
pub mod Operations
pub mod Create
pub mod Laws
pub mod Cheapest
pub mod Launches
pub mod Deletion
pub mod Requested
pub mod Listed
pub mod Events
