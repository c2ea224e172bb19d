-- ===== src/Core/Samples.antt =====
-- Small tables and servers for the tests: Ann, Bob and Cid, Ann's team and Ann's folder.
use seta_training.Prelude.{String, Bool, true, List, [], ◌∷◌, none, some}
use seta_training.Core.Db.{UserRow, Database}
use seta_training.Core.World.{World}

abbrev user : String → String → UserRow
user id role = record {
  user_id = id;
  username = id;
  email = id;
  role = role;
  deleted_at = none;
  updated_at = 0;
}

-- Three users and nothing else.
abbrev pub users_only : Database
users_only = record {
  users = user "ann" "manager" ∷ user "bob" "member" ∷ user "cid" "member" ∷ [];
  teams = [];
  members = [];
  assets = [];
  acl = [];
  audit = [];
  now = 7;
  collation = λ _ _. true;
  uuid = λ _. "fresh";
  issued = 0;
}

-- Ann has a team, which she manages, with Bob; and a folder with a note in it.
abbrev pub filled : Database
filled = record users_only {
  teams = record { team_id = "team"; team_name = "core"; created_by = "ann"; updated_at = 0 } ∷ [];
  members =
      record { team_id = "team"; user_id = "ann"; role = "manager" }
      ∷ record { team_id = "team"; user_id = "bob"; role = "member" }
      ∷ [];
  assets =
      record {
        asset_id = "folder";
        owner_id = "ann";
        parent_id = none;
        type = "folder";
        title = "plans";
        content = none;
        created_at = 1;
      }
      ∷ record {
        asset_id = "note";
        owner_id = "ann";
        parent_id = some "folder";
        type = "note";
        title = "plan";
        content = some "text";
        created_at = 2;
      }
      ∷ [];
}

-- The servers over a database, with nothing cached, and some outages to come.
abbrev pub servers : Database → List Bool → World
servers d outages = record { db = d; redis = []; messages = []; outages = outages }
