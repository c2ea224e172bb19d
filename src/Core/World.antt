-- ===== src/Core/World.antt =====
-- What a request to core-service reads and writes: PostgreSQL, Redis and Kafka, each call of which
-- may fail, with the errors of the packages `team` and `asset` and of the database driver.
mod State
mod Calls
pub mod Keys
pub mod Keeps
pub mod Triple
pub mod Working
pub mod Redis
pub use State.*
pub use Calls.{if_unexpired, after_call, commit}
unfoldable pub use Calls.{one, many, exec, transaction, redis_get, redis_set, redis_del, publish}
