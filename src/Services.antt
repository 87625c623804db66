-- ===== src/Services.antt =====
-- app/services: the workflow rules.
pub mod EventWorkflow
pub mod CapaWorkflow
pub mod DocumentWorkflow
pub mod TrainingWorkflow
pub mod Rbac
pub mod OrgSettings
pub mod NavConfig
