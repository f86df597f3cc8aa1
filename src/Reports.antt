-- ===== src/Reports.antt =====
-- What is checked of the artefacts of an execution, once it has ended.
pub mod Artifacts
pub mod Trajectories
pub mod Records
