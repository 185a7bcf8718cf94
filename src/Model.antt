-- ===== src/Model.antt =====
-- internal/model: the entities, their validation and their list filters. A `Validate` method
-- trims and defaults the fields of the object that it is called on before and between its checks,
-- so it returns the object as it leaves it, with the error if there is one.
pub mod Checked
pub mod Services
pub mod Routes
pub mod Apps
pub mod ApiKeys
pub mod Rules
pub mod Logs
pub mod HealthChecks
pub mod Valid
