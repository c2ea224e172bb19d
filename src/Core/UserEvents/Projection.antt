-- ===== src/Core/UserEvents/Projection.antt =====
-- What the events of users make of the projection of the users.
use seta_training.Prelude.{ℕ, ◌+◌, String, Option, none, some, if◌then◌else◌, map}
use seta_training.Core.Db.{UserRow, Database}
use seta_training.Core.Db.Users
use seta_training.Core.World.{World}
use seta_training.Core.Team.Repository

-- The servers some seconds later.
abbrev pub after : ℕ → World → World
after n w = record w { db = record w.db { now = w.db.now + n } }

abbrev at_some_time : Option ℕ → Option ℕ
at_some_time none = none
at_some_time (some n) = some 0

-- The tables without the times at which a user was last written and deleted, and without the clock.
abbrev without_times : UserRow → UserRow
without_times r = record r { updated_at = 0; deleted_at = at_some_time r.deleted_at }

abbrev pub timeless : Database → Database
timeless d = record d { users = map without_times d.users; now = 0 }

deleted : String → ℕ → UserRow → UserRow
deleted u n r = if Users.is_user u r then record r { deleted_at = some n } else r
