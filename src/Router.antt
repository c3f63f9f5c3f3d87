-- ===== src/Router.antt =====
-- src/canatune/controller/router.py: per-request admission and group choice.
pub mod Settings
pub mod State
pub mod Tables
pub mod Latency
pub mod Report
pub mod Lifecycle
pub mod Decode
pub mod Routes
pub mod Candidates
pub mod Choose
pub mod Admit
pub mod Arrivals
