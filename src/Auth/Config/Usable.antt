-- ===== src/Auth/Config/Usable.antt =====
-- What a configuration that is loaded promises to the services.
use Prim.Native.String.{[] as nil, ◌∷◌ as cons}
use Prim.Native.Char.{code}
use seta_training.Prelude.{
  ok, length, ◌+◌, ◌*◌, ◌⊎◌, ℕ, ◌<◌, ◌≤◌, String, Bool, true, false, List, [], ◌∷◌, map, Option,
  none, some, ◌≡◌, ◌≢◌, refl, ◌==◌, arith, Bool-cases, inl, inr, split_commas, equal,
}
use seta_training.Auth.Libraries.{Bcrypt}
use seta_training.Auth.World.{World}
use seta_training.Auth.Import.{PoolState, Step, Reach, start, pool_size, finish}
use seta_training.Auth.Import.Csv.{Read, CsvRow, rows, parse_csv}
use seta_training.Auth.Import.Progress.{steps}
use seta_training.Auth.Import.Run.{Imported, AccountsFor, import_ends}
use seta_training.Auth.Import.Trim.{trim_space}
use seta_training.Auth.Config.{
  and_then, max_int, in_range, numeral, atoi, Environment, getenv, getenv_slice, positive_or,
  getenv_int, Loading, loaded, failed, panicked, Pem, Config, config_of, require, load_private_key,
  load_public_key, load,
}

in_range_sound :
    (minus : Bool) (o : Option ℕ) (n : ℕ) → in_range minus o ≡ some (false, n) → n ≤ max_int
in_range_sound true none n h = absurd (ground arith)
in_range_sound true (some m) n h = absurd (ground arith)
in_range_sound false none n h = absurd (ground arith)
in_range_sound false (some m) n h = ground arith

atoi_range : (s : String) (n : ℕ) → atoi s ≡ some (false, n) → n ≤ max_int
unfolding atoi
atoi_range nil n h = absurd (ground arith)
atoi_range (cons c s) n h = elim (Bool-cases (equal (code c) 45)) [
  | inl minus ↦ in_range_sound true (numeral s) n (rw minus at h)
  | inr rest ↦ elim (Bool-cases (equal (code c) 43)) [
    | inl plus ↦ in_range_sound false (numeral s) n (rw (rest, plus) at h)
    | inr digit ↦ in_range_sound false (numeral (cons c s)) n (rw (rest, digit) at h)
  ]
]

positive_or-range :
    (d : ℕ) (o : Option (Bool × ℕ))
    → 0 < d
    → d ≤ max_int
    → ((n : ℕ) → o ≡ some (false, n) → n ≤ max_int)
    → (0 < positive_or d o) × (positive_or d o ≤ max_int)
positive_or-range d none pos fits small = (pos, fits)
positive_or-range d (some (true, n)) pos fits small = (pos, fits)
positive_or-range d (some (false, n)) pos fits small = (ground arith, ground (arith, small n refl))

getenv_int-range :
    (env : Environment) (key : String) (d : ℕ)
    → 0 < d
    → d ≤ max_int
    → (0 < getenv_int env key d) × (getenv_int env key d ≤ max_int)
unfolding getenv_int
getenv_int-range env key d pos fits = elim (Bool-cases (env key == "")) [
  | inl unset ↦ rw unset (pos, fits)
  | inr set ↦ rw set (positive_or-range d (atoi (env key)) pos fits (atoi_range (env key)))
]

getenv_set :
    (env : Environment) (key d : String) → (d == "") ≡ false → (getenv env key d == "") ≡ false
unfolding getenv
getenv_set env key d set = ground arith

split_some : (s : String) → split_commas s ≢ []
unfolding split_commas
split_some nil h = ground arith
split_some (cons c s) h = ground arith

map_some : {A B : Type 0} (f : A → B) (xs : List A) → xs ≢ [] → map f xs ≢ []
map_some f [] some_there h = some_there refl
map_some f (x ∷ xs) some_there h = ground arith

and_then_loaded :
    {E F A B : Type 0} (wrap : E → F) (r : Loading E A) (f : A → Loading F B) (b : B)
    → and_then wrap r f ≡ loaded b
    → (a : A) × (r ≡ loaded a) × (f a ≡ loaded b)
and_then_loaded wrap (loaded a) f b h = (a, refl, h)
and_then_loaded wrap (failed e) f b h = absurd (ground arith)
and_then_loaded wrap panicked f b h = absurd (ground arith)

require_sound :
    (env : Environment) (key v : String)
    → require env key ≡ loaded v
    → (v ≡ env key) × ((v == "") ≡ false)
unfolding require
require_sound env key v h = (ground arith, ground arith)

getenv_slice_some : (env : Environment) (key d : String) → getenv_slice env key d ≢ []
unfolding getenv_slice
getenv_slice_some env key d =
    map_some trim_space (split_commas (getenv env key d)) (split_some (getenv env key d))

loaded_as :
    {E A : Type 0} (P : A → Type 0) (a b : A) (r : Loading E A)
    → r ≡ loaded a
    → r ≡ loaded b
    → P a
    → P b
loaded_as P a b r ha hb x = let same : a ≡ b = cc (ha, hb) in rw same at x

-- What the services take for granted of their configuration.
pub record IsUsable {K L : Type 0} (c : Config K L) : Type 0 where
  pub db_url : (c.db_url == "") ≡ false
  pub port : (c.port == "") ≡ false
  pub redis_url : (c.redis_url == "") ≡ false
  pub kafka_brokers : c.kafka_brokers ≢ []
  pub some_worker : 0 < c.import_workers
  pub workers_fit : c.import_workers ≤ max_int

module _ {B K L : Type 0} (p : Pem B K L) (env : Environment)
    (read_file : String → Option String) where
  -- A configuration that is loaded, from whatever environment and files, has a text for the address of the
  -- database, of Redis and for the port, an entry in the list of brokers of Kafka, though that may be an
  -- empty text, and a number of workers that is an `int` from 1 on, also where the environment has another
  -- number or no number.
  pub load-IsUsable : (c : Config K L) → load p env read_file ≡ loaded c → IsUsable c
  unfolding load
  load-IsUsable c h =
      let (url, has_url, with_url) = and_then_loaded _ (require env "DB_URL") _ c h in
      let (private, has_private, with_private) =
        and_then_loaded _ (load_private_key p env read_file) _ c with_url in
      let (public, has_public, is) =
        and_then_loaded _ (load_public_key p env read_file) _ c with_private in
      loaded_as IsUsable (config_of p env read_file url private public) c _ refl is (record {
        db_url = (require_sound env "DB_URL" url has_url).1;
        port = getenv_set env "PORT" "8081" refl;
        redis_url = getenv_set env "REDIS_URL" "redis://localhost:6379/0" refl;
        kafka_brokers = getenv_slice_some env "KAFKA_BROKERS" "localhost:9092";
        some_worker = (getenv_int-range env "IMPORT_WORKERS" 5 (omega arith) (omega arith)).0;
        workers_fit = (getenv_int-range env "IMPORT_WORKERS" 5 (omega arith) (omega arith)).1;
      })

  -- Every run of an import of a service with a configuration that is loaded comes to an end, whatever the
  -- environment and the number of workers that the request asks for, if the file is read, and in whatever
  -- order the workers go: it takes at most two steps for each row and one for each worker; before it has
  -- finished, a worker can go on; and when it has finished, the context is done or the result counts every
  -- record behind the header and lists as many errors as have failed.
  pub configured_import_ends :
      (b : Bcrypt) (c : Config K L) (workers : ℕ) (w : World) (reads : List Read) (rs : List CsvRow)
      (q : PoolState)
      → load p env read_file ≡ loaded c
      → parse_csv reads ≡ rows rs
      → (r : Reach b (start rs (pool_size workers c.import_workers (length rs)) false w) q)
      → (steps r ≤ 2 * length rs + pool_size workers c.import_workers (length rs))
        × (((z : PoolState) × Step b q z)
            ⊎ (Imported b workers c.import_workers false w reads
                  (ok (finish q q.world).0, (finish q q.world).1)
                × ((q.is_cancelled ≡ true) ⊎ AccountsFor reads (ok (finish q q.world).0))))
  configured_import_ends b c workers w reads rs q h parsed r =
      import_ends b workers c.import_workers w reads rs q (load-IsUsable c h).some_worker parsed r
