-- ===== src/Auth/Config/Tests.antt =====
-- Configurations from small environments.
use seta_training.Prelude.{
  ok, List, true, ◌+◌, ◌*◌, ◌≤◌, ◌⊎◌, String, false, Option, none, some, [], ◌∷◌, ◌≡◌, refl, ◌==◌,
  if◌then◌else◌,
}
use seta_training.Auth.Import
use seta_training.Auth.Import.{
  PoolState, Step, Reach, here, next, take, handle, start, pool_size, finish,
}
use seta_training.Auth.Import.Progress.{steps}
use seta_training.Auth.Import.Csv.{Read, CsvRow, fields, parse_csv, parse_lines}
use seta_training.Auth.Import.Run.{Imported, AccountsFor}
use seta_training.Auth.Config
use seta_training.Auth.Config.{
  Environment, Loading, loaded, panicked, LoadError, Pem, Config as Configuration, config_of, load,
}
use seta_training.Auth.Config.Usable.{IsUsable, load-IsUsable, configured_import_ends}
use seta_training.Auth.Samples.{bcrypt, servers}

-- An address of the database, and no number of workers that can be used.
abbrev env : Environment
env key = if key == "DB_URL" then "db" else if key == "IMPORT_WORKERS" then "-3" else ""

abbrev files : String → Option String
files path = some path

-- All texts are keys, and a library that finds no block in any text.
abbrev pem : Pem String String String
pem = record {
  decode = λ t. some t;
  parse_pkcs8 = λ t. some (some t);
  parse_pkix = λ t. some (some t);
}

abbrev no_pem : Pem String String String
no_pem = record { decode = λ t. none; parse_pkcs8 = λ t. none; parse_pkix = λ t. none }

abbrev configured : Configuration String String
configured = config_of pem env files "db" "jwt_rs256.pem" "jwt_rs256.pub"

load-env : load pem env files ≡ loaded configured
unfolding load Config.require Config.load_private_key Config.load_public_key Config.getenv
load-env = refl

test_workers : configured.import_workers ≡ 5
unfolding Config.getenv_int Config.atoi Config.digits
test_workers = refl

test_panic : load no_pem env files ≡ panicked
unfolding load Config.require Config.load_private_key Config.getenv
test_panic = refl

load-IsUsable_example : IsUsable configured
load-IsUsable_example = load-IsUsable pem env files configured load-env

abbrev cid : CsvRow
cid = record { line_no = 2; username = "cid"; email = "cid@x"; password = "pass"; role = "member" }

abbrev upload : List Read
upload = fields "username" "email" "password" "role" ∷ fields "cid" "cid@x" "pass" "member" ∷ []

-- The one worker that is wanted for one row has taken it and registered it.
abbrev handled : PoolState
handled = record {
  jobs = [];
  results = Import.result_of cid (Import.register_row bcrypt cid servers).0 ∷ [];
  workers = Import.idle ∷ [];
  is_cancelled = false;
  world = (Import.register_row bcrypt cid servers).1;
}

handled-Reach :
    Reach bcrypt (start (cid ∷ []) (pool_size 0 configured.import_workers 1) false servers) handled
unfolding start pool_size Import.idle_workers Config.getenv_int Config.atoi Config.digits
handled-Reach = next (next here (take [] [] cid [] refl refl)) (handle [] [] cid refl refl)

configured_import_ends_example :
    (steps handled-Reach ≤ 2 * 1 + pool_size 0 configured.import_workers 1)
    × (((z : PoolState) × Step bcrypt handled z)
        ⊎ (Imported bcrypt 0 configured.import_workers false servers upload
              (ok (finish handled handled.world).0, (finish handled handled.world).1)
            × ((handled.is_cancelled ≡ true)
                ⊎ AccountsFor upload (ok (finish handled handled.world).0))))
unfolding parse_csv parse_lines
configured_import_ends_example =
    configured_import_ends pem env files bcrypt configured 0 servers upload (cid ∷ []) handled
      load-env refl handled-Reach
