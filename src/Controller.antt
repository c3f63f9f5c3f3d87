-- ===== src/Controller.antt =====
-- src/canatune/controller/tier_controller.py: the clocks and states of the groups.
pub mod Clocks
pub mod Effort
pub mod Feedback
pub mod Plan
