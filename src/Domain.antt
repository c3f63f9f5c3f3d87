-- ===== src/Domain.antt =====
-- src/canatune/domain: the data that the Router, the Controller and the Canary share.
pub mod Tiers
pub mod Groups
pub mod Risk
pub mod Admission
pub mod Load
pub mod Calibration
pub mod Cluster
