-- ===== src/Tests.antt =====
-- Small inputs, and the runs of the model on them.
pub mod Mesh
pub mod Cases
pub mod Wakes
pub mod Specs
pub mod Jobs
pub mod Waits
pub mod Sessions
pub mod Dispatcher
pub mod Plans
pub mod Truths
