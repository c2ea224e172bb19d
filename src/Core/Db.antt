-- ===== src/Core/Db.antt =====
-- The tables of core-service (core-service/internal/db/models.go) with the columns that it reads,
-- under the constraints that its migrations declare. The queries stand in the modules below.
pub mod Users
pub mod Teams
pub mod Membership
pub mod Assets
pub mod Acl
pub mod Audit
pub mod Cascade
pub mod Grants
pub mod Tree
pub mod Tables
pub use Tables.{UserRow, TeamRow, MemberRow, AssetRow, AclRow, AuditRow, Database}
