-- ===== src/Samples.antt =====
-- Concrete numbers and states on which the theorems of src/canatune are tried.
mod Fixed
mod Setup
mod Requests
mod Domain
mod Clocks
mod Cluster
mod Canary
mod Experiment
mod Feedback
mod Persisted
mod Fits
