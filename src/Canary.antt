-- ===== src/Canary.antt =====
-- src/canatune/controller: the Canary, which measures one group while the others serve.
pub mod Bound
pub mod Scheduler
