-- ===== src/Auth/Requests.antt =====
-- The requests of auth-service's two services as data, each with the call that serves it, and the
-- time that passes between them.
use seta_training.Prelude.{ℕ, ◌+◌, String, List, [], ◌∷◌, ok, pure, ◌>>=◌, ◌>>◌}
use seta_training.Auth.Libraries.{Bcrypt}
use seta_training.Auth.World.{World, Action}
use seta_training.Auth.Users
use seta_training.Auth.Tokens
use seta_training.Auth.Tokens.{Service}

pub data Request (Token : Type 0) : Type 0 where
  register : (username email password role : String) → Request Token
  login : (email password : String) → Request Token
  refresh : (token : Token) → Request Token
  logout : (access_token refresh_token : Token) → Request Token
  list : (cursor : String) (limit : ℕ) → Request Token
  wait : (seconds : ℕ) → Request Token

-- The clock of the servers goes on.
unfoldable pub pass_time : ℕ → Action (Unit {0})
pass_time seconds w = (ok tt, record w { db = record w.db { now = w.db.now + seconds } })

module _ {Token : Type 0} (b : Bcrypt) (s : Service Token) where
  -- `Login` of auth/handler.go: the user, and tokens for the user.
  unfoldable pub log_in : String → String → Action (Token × Token)
  log_in email password = do
    u ← Users.login b email password
    Tokens.generate_token_pair s u.user_id u.role

  unfoldable pub serve : Request Token → Action (Unit {0})
  unfolding log_in pass_time
  serve (register n m p r) = do Users.register b n m p r; pure tt
  serve (login m p) = do log_in m p; pure tt
  serve (refresh t) = do Tokens.rotate_refresh_token s t; pure tt
  serve (logout a r) = Tokens.revoke_session s a r
  serve (list c n) = do Users.list_page c n; pure tt
  serve (wait n) = pass_time n

  -- The servers after some requests.
  unfoldable pub run : List (Request Token) → World → World
  run [] w = w
  run (r ∷ rs) w = run rs (serve r w).1
