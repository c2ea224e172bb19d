-- ===== src/Auth.antt =====
-- auth-service: its database, its servers and its services.
pub mod Db
pub mod World
pub mod Libraries
pub mod Users
pub mod Tokens
pub mod Quiet
pub mod Requests
pub mod Replay
pub mod Middleware
pub mod Logout
pub mod Identity
pub mod Race
pub mod Handler
pub mod Pages
pub mod Accounts
pub mod Import
pub mod Config
pub mod Samples
mod Tests
