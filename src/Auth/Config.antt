-- ===== src/Auth/Config.antt =====
-- auth-service/internal/config/config.go: the configuration, from the environment and two files.
pub mod Usable
mod Tests
use Prim.Native.String.{[] as nil, ◌∷◌ as cons}
use Prim.Native.Char.{code}
use seta_training.Prelude.{
  ℕ, ◌+◌, ◌-◌, ◌*◌, String, Bool, true, false, ◌&&◌, ◌||◌, leb, equal, if◌then◌else◌, ◌==◌, List,
  map, Option, none, some, split_commas,
}
use seta_training.Auth.Import.Trim.{trim_space}

-- The digits of a number, behind those that make `n`.
unfoldable pub digits : ℕ → String → Option ℕ
digits n nil = some n
digits n (cons c s) =
    let rest = digits (n * 10 + (code c - 48)) s in
    if leb 48 (code c) && leb (code c) 57 then rest else none

abbrev pub max_int : ℕ
max_int = 9223372036854775807

-- A number with its sign, if it is an `int`.
abbrev pub in_range : Bool → Option ℕ → Option (Bool × ℕ)
in_range minus none = none
in_range true (some n) = if leb n (max_int + 1) then some (true, n) else none
in_range false (some n) = if leb n max_int then some (false, n) else none

abbrev pub numeral : String → Option ℕ
numeral s = if s == "" then none else digits 0 s

-- `strconv.Atoi`: whether there is a minus, and the magnitude; `none` is an error.
unfoldable pub atoi : String → Option (Bool × ℕ)
unfolding digits
atoi nil = none
atoi (cons c s) =
    if equal (code c) 45
    then in_range true (numeral s)
    else if equal (code c) 43
    then in_range false (numeral s)
    else in_range false (numeral (cons c s))

-- `os.Getenv` gives an empty text for a variable that is not set.
abbrev pub Environment : Type 0
Environment = String → String

unfoldable pub getenv : Environment → String → String → String
getenv env key default_val = let v = env key in if v == "" then default_val else v

unfoldable pub getenv_slice : Environment → String → String → List String
unfolding getenv split_commas
getenv_slice env key default_val = map trim_space (split_commas (getenv env key default_val))

-- `err != nil || n <= 0`
abbrev pub positive_or : ℕ → Option (Bool × ℕ) → ℕ
positive_or default_val none = default_val
positive_or default_val (some (minus, n)) = if minus || equal n 0 then default_val else n

unfoldable pub getenv_int : Environment → String → ℕ → ℕ
unfolding atoi
getenv_int env key default_val =
    let v = env key in if v == "" then default_val else positive_or default_val (atoi v)

-- What becomes of a function that may return an error, or panic.
pub data Loading (E A : Type 0) : Type 0 where
  loaded : A → Loading E A
  failed : E → Loading E A
  panicked : Loading E A

abbrev pub and_then : {E F A B : Type 0} → (E → F) → Loading E A → (A → Loading F B) → Loading F B
and_then wrap (loaded a) f = f a
and_then wrap (failed e) f = failed (wrap e)
and_then wrap panicked f = panicked

pub data KeyError : Type 0 where
  unread unparsed not_rsa : KeyError

pub data LoadError : Type 0 where
  required : (key : String) → LoadError
  bad_private_key bad_public_key : KeyError → LoadError

-- `pem.Decode`, and the parsers of x509: an error, a key that is not RSA's, or a key.
pub record Pem (Block PrivateKey PublicKey : Type 0) : Type 0 where
  pub decode : String → Option Block
  pub parse_pkcs8 : Block → Option (Option PrivateKey)
  pub parse_pkix : Block → Option (Option PublicKey)

abbrev pub key_of_parsed : {K : Type 0} → Option (Option K) → Loading KeyError K
key_of_parsed none = failed unparsed
key_of_parsed (some none) = failed not_rsa
key_of_parsed (some (some k)) = loaded k

-- `block.Bytes` of no block panics.
abbrev pub key_of_block : {B K : Type 0} → (B → Option (Option K)) → Option B → Loading KeyError K
key_of_block parse none = panicked
key_of_block parse (some b) = key_of_parsed (parse b)

abbrev pub key_of_file :
    {B K : Type 0}
    → (String → Option B)
    → (B → Option (Option K))
    → Option String
    → Loading KeyError K
key_of_file decode parse none = failed unread
key_of_file decode parse (some text) = key_of_block parse (decode text)

pub record Config (PrivateKey PublicKey : Type 0) : Type 0 where
  pub db_url : String
  pub port : String
  pub migrations_path : String
  pub redis_url : String
  pub kafka_brokers : List String
  pub private_key : PrivateKey
  pub public_key : PublicKey
  pub import_workers : ℕ
  pub jwt_issuer : String
  pub jwt_audience : String

unfoldable pub require : Environment → String → Loading LoadError String
require env key = let v = env key in if v == "" then failed (required key) else loaded v

module _ {B K L : Type 0} (p : Pem B K L) (env : Environment)
    (read_file : String → Option String) where
  unfoldable pub load_private_key : Loading KeyError K
  unfolding getenv
  load_private_key =
      key_of_file p.decode p.parse_pkcs8
        (read_file (getenv env "JWT_PRIVATE_KEY_PATH" "jwt_rs256.pem"))

  unfoldable pub load_public_key : Loading KeyError L
  unfolding getenv
  load_public_key =
      key_of_file p.decode p.parse_pkix
        (read_file (getenv env "JWT_PUBLIC_KEY_PATH" "jwt_rs256.pub"))

  abbrev pub config_of : String → K → L → Config K L
  config_of url private public = record {
    db_url = url;
    port = getenv env "PORT" "8081";
    migrations_path = getenv env "MIGRATIONS_PATH" "migrations";
    redis_url = getenv env "REDIS_URL" "redis://localhost:6379/0";
    kafka_brokers = getenv_slice env "KAFKA_BROKERS" "localhost:9092";
    private_key = private;
    public_key = public;
    import_workers = getenv_int env "IMPORT_WORKERS" 5;
    jwt_issuer = getenv env "JWT_ISSUER" "auth-service";
    jwt_audience = getenv env "JWT_AUDIENCE" "seta";
  }

  unfoldable pub load : Loading LoadError (Config K L)
  unfolding require load_private_key load_public_key
  load =
      and_then (λ e. e) (require env "DB_URL")
        (λ url. and_then bad_private_key load_private_key (λ private.
          and_then bad_public_key load_public_key
            (λ public. loaded (config_of url private public))))
