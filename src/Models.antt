-- ===== src/Models.antt =====
-- app/models: the rows of the tables as records, their columns as fields.
pub mod User
pub mod Event
pub mod Capa
pub mod Document
pub mod Training
pub mod Change
pub mod Audit
pub mod Organization
pub mod Alert
pub mod History
