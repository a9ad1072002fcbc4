-- ===== src/Yandex.antt =====
-- pkg/yandex: instance types, label matching, the cloud client and its cache, credentials.
pub mod Platform
pub mod Decimal
pub mod Split
pub mod InstanceType
pub mod MatchLabels
pub mod NodeGroup
pub mod Sdk
pub mod Auth
pub mod CachedSdk
