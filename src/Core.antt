-- ===== src/Core.antt =====
-- core-service: its database, its caches and its services.
pub mod Db
pub mod World
pub mod Http
pub mod UserEvents
pub mod Audit
pub mod Producer
pub mod Team
pub mod Asset
pub mod Samples
