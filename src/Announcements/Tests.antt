-- ===== src/Announcements/Tests.antt =====
-- Two registrations, of which the second is refused, and the projection that they lead to.
use seta_training.Prelude.{[], ◌∷◌, refl}
use seta_training.Core.Samples.{users_only}
use seta_training.Core.Samples
use seta_training.Core.World.{World as CoreWorld}
use seta_training.Auth.World.{World}
use seta_training.Auth.Handler.{RegisterRequest}
use seta_training.Auth.Samples.{bcrypt, servers}
use seta_training.Announcements.{project, register_all}
use seta_training.Announcements.Projection.{Follows, project-register_all}

abbrev cid : RegisterRequest
cid = record { username = "cid"; email = "cid@x"; password = "pass"; role = "member" }

abbrev no_users : World
no_users = record servers { db = record servers.db { users = []; tokens = [] } }

abbrev nothing_read : CoreWorld
nothing_read = Samples.servers (record users_only { users = [] }) []

project-register_all_example :
    Follows
      (project (register_all bcrypt (cid ∷ cid ∷ []) no_users).messages nothing_read).db.users
      (register_all bcrypt (cid ∷ cid ∷ []) no_users).db.users
project-register_all_example =
    project-register_all bcrypt (cid ∷ cid ∷ []) nothing_read no_users refl refl refl tt
