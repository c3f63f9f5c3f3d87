-- ===== src/Domain/Admission.antt =====
-- src/canatune/domain/admission.py: state-based admission.
pub mod Cost
pub mod Predictor
pub mod Slack
