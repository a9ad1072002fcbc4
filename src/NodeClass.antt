-- ===== src/NodeClass.antt =====
-- pkg/apis/v1alpha1 and pkg/controllers/nodeclass: the node class, its validation and its controller.
pub mod Types
pub mod Conditions
pub mod Disk
pub mod San
pub mod SecurityGroups
pub mod Selector
pub mod CacheKeys
pub mod Validation
pub mod SubnetReconciler
pub mod Events
pub mod Agreement
pub mod Controller
