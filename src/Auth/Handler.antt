-- ===== src/Auth/Handler.antt =====
-- auth-service/internal/auth/handler.go and user/handler.go: the guards and the answers.
use seta_training.Prelude.{String, Option, none, some, Result, ok, err}
use seta_training.Core.Http.{Response, failure, success, empty}
use seta_training.Auth.Libraries.{Bcrypt}
use seta_training.Auth.Db.{User}
use seta_training.Auth.World.{
  World, Error, invalid_token, token_revoked, email_in_use, invalid_credentials,
}
use seta_training.Auth.Users
use seta_training.Auth.Tokens
use seta_training.Auth.Tokens.{Service}

abbrev pub Handler : Type 0 → Type 0
Handler A = World → Response A × World

abbrev internal : {A : Type 0} → String → Response A
internal text = failure 500 "INTERNAL_ERROR" text

abbrev unauthorized : {A : Type 0} → String → Response A
unauthorized text = failure 401 "UNAUTHORIZED" text

abbrev bad_request : {A : Type 0} → String → Response A
bad_request text = failure 400 "BAD_REQUEST" text

-- `WriteUserErr`
abbrev pub write_user_err : {A : Type 0} → Error → Response A
write_user_err email_in_use = failure 409 "CONFLICT" "email already in use"
write_user_err invalid_credentials = unauthorized "invalid credentials"
write_user_err e = internal "internal server error"

-- `writeAuthErr`
abbrev pub write_auth_err : {A : Type 0} → Error → Response A
write_auth_err invalid_token = unauthorized "invalid or expired token"
write_auth_err token_revoked = unauthorized "token reused or revoked"
write_auth_err e = internal "internal server error"

-- The answer to a failed logout: a revoked token is no case of its own.
abbrev pub write_logout_err : {A : Type 0} → Error → Response A
write_logout_err invalid_token = unauthorized "invalid or expired token"
write_logout_err e = internal "internal server error"

abbrev pub respond :
    {A B : Type 0}
    → (Error → Response B)
    → (A → Handler B)
    → Result Error A × World
    → Response B × World
respond on_error next (ok a, w) = next a w
respond on_error next (err e, w) = (on_error e, w)

abbrev answer : {A B : Type 0} → (A → Response B) → A → Handler B
answer f a w = (f a, w)

pub record RegisterRequest : Type 0 where
  pub username : String
  pub email : String
  pub password : String
  pub role : String

pub record LoginRequest : Type 0 where
  pub email : String
  pub password : String

-- The fields of the answer to a registration.
pub record Registered : Type 0 where
  pub user_id : String
  pub username : String
  pub email : String
  pub role : String

abbrev pub registered : User → Registered
registered u = record { user_id = u.user_id; username = u.username; email = u.email; role = u.role }

module _ {Token : Type 0} (b : Bcrypt) (s : Service Token) where
  -- `refusal` is the text of the error of `ShouldBindJSON`, whose body is `none` then.
  unfoldable pub register : (refusal : String) → Option RegisterRequest → Handler Registered
  register refusal none w = (bad_request refusal, w)
  register refusal (some req) w =
      respond write_user_err (answer (λ u. success 201 (registered u)))
        (Users.register b req.username req.email req.password req.role w)

  unfoldable pub login : (refusal : String) → Option LoginRequest → Handler (Token × Token)
  login refusal none w = (bad_request refusal, w)
  login refusal (some req) w =
      respond write_user_err
        (λ u w'.
          respond (λ e. internal "failed to generate tokens") (answer (success 200))
            (Tokens.generate_token_pair s u.user_id u.role w'))
        (Users.login b req.email req.password w)

  unfoldable pub refresh : (refusal : String) → Option Token → Handler (Token × Token)
  refresh refusal none w = (bad_request refusal, w)
  refresh refusal (some token) w =
      respond write_auth_err (answer (success 200)) (Tokens.rotate_refresh_token s token w)

  -- The header's token first; `none` is a header with no `Bearer ` before it.
  unfoldable pub logout : Option Token → (refusal : String) → Option Token → Handler (Unit {0})
  logout none refusal body w = (bad_request "missing authorization header", w)
  logout (some access) refusal none w = (bad_request refusal, w)
  logout (some access) refusal (some token) w =
      respond write_logout_err (answer (λ _. empty 204)) (Tokens.revoke_session s access token w)
