-- ===== src/Auth/Tests.antt =====
-- Requests to auth-service on small tables.
use seta_training.Prelude.{
  false, some, [], ◌∷◌, ◌≡◌, refl, ok, err, is_ok, map, arith, eq_iff, exists, find, is_down, later,
}
use seta_training.Core.Asset.Handler.{number}
use seta_training.Auth.Libraries.{Claims}
use seta_training.Auth.Db
use seta_training.Auth.Db.{by_id}
use seta_training.Auth.Db.Spent.{IsSpent, NoneLive}
use seta_training.Auth.World.{World, token_revoked, many, exec, redis_set, publish}
use seta_training.Auth.Users
use seta_training.Auth.Tokens
use seta_training.Auth.Tokens.{Service}
use seta_training.Auth.Requests.{register, login, wait, run}
use seta_training.Auth.Replay.{rotate_once, replay_revokes_all}
use seta_training.Auth.Middleware.{jwt_auth}
use seta_training.Auth.Logout.{logged_out_access, logged_out_refresh}
use seta_training.Auth.Identity.{
  login-register, jwt_auth-generate_token_pair, jwt_auth_refuses_refresh,
}
use seta_training.Auth.Race.{checking, issuing, in_turn, both_rotations_pass}
use seta_training.Auth.Pages.{walk, to_response}
use seta_training.Auth.Pages.Walk.{walk-eq-users}
use seta_training.Auth.Samples.{
  bcrypt, bcrypt-IsBcrypt, service, jwt-IsJwt, ann_access, ann_refresh, tables, servers,
}

abbrev rotated : World
rotated = (Tokens.rotate_refresh_token service ann_refresh servers).1

rotate_once_example :
    is_ok
      (Tokens.rotate_refresh_token service ann_refresh
        (run bcrypt service (login "ann@x" "secret" ∷ wait 60 ∷ []) rotated)).0
    ≡ false
unfolding Tokens.rotate_refresh_token Tokens.parsed Tokens.parse_token Tokens.spend Tokens.is_valid
    many is_down Db.is_refresh_token_valid exists Tokens.mark_revoked exec later
    Db.mark_refresh_token_revoked Tokens.generate_token_pair Tokens.now Tokens.new_uuid
    Tokens.insert Db.insert_refresh_token Tokens.parsed_refresh
rotate_once_example =
    rotate_once bcrypt service ann_refresh (login "ann@x" "secret" ∷ wait 60 ∷ []) servers jwt-IsJwt
      refl

rotated-IsSpent : IsSpent "old" rotated.db
unfolding Tokens.rotate_refresh_token Tokens.parsed Tokens.parse_token Tokens.spend Tokens.is_valid
    many is_down Db.is_refresh_token_valid exists Tokens.mark_revoked exec later
    Db.mark_refresh_token_revoked Tokens.generate_token_pair Tokens.now Tokens.new_uuid
    Tokens.insert Db.insert_refresh_token Tokens.parsed_refresh
rotated-IsSpent = (refl, refl)

replay_revokes_all_example :
    ((Tokens.rotate_refresh_token service ann_refresh rotated).0 ≡ err token_revoked)
    × NoneLive "ann" (Tokens.rotate_refresh_token service ann_refresh rotated).1.db
unfolding Tokens.rotate_refresh_token Tokens.parsed Tokens.parse_token Tokens.spend Tokens.is_valid
    many is_down Db.is_refresh_token_valid exists Tokens.mark_revoked exec later
    Db.mark_refresh_token_revoked Tokens.generate_token_pair Tokens.now Tokens.new_uuid
    Tokens.insert Db.insert_refresh_token Tokens.parsed_refresh
replay_revokes_all_example =
    replay_revokes_all service ann_refresh ann_refresh rotated refl refl rotated-IsSpent refl

abbrev logged_out : World
logged_out = (Tokens.revoke_session service ann_access ann_refresh servers).1

logged_out_access_example : is_ok (jwt_auth service (some ann_access) logged_out).0 ≡ false
unfolding Tokens.revoke_session Tokens.parsed Tokens.parse_token Tokens.mark_revoked exec is_down
    Db.mark_refresh_token_revoked Tokens.blacklist redis_set later exists
logged_out_access_example =
    logged_out_access service ann_access ann_refresh ann_access servers logged_out jwt-IsJwt refl
      refl refl

logged_out_refresh_example :
    is_ok
      (Tokens.rotate_refresh_token service ann_refresh
        (run bcrypt service (wait 60 ∷ []) logged_out)).0
    ≡ false
unfolding Tokens.revoke_session Tokens.parsed Tokens.parse_token Tokens.mark_revoked exec is_down
    Db.mark_refresh_token_revoked Tokens.blacklist redis_set later exists
logged_out_refresh_example =
    logged_out_refresh bcrypt service ann_access ann_refresh ann_refresh (wait 60 ∷ []) servers
      jwt-IsJwt refl refl refl

login-register_example :
    (Users.login bcrypt "cid@x" "pass"
      (Users.register bcrypt "cid" "cid@x" "pass" "member" servers).1).0
    ≡ ok (record {
      user_id = "fresh";
      username = "cid";
      email = "cid@x";
      password_hash = "pass";
      role = "member";
      created_at = 7;
    })
unfolding Users.register Users.create exec is_down Db.create_user exists publish later
login-register_example =
    login-register bcrypt "cid" "cid@x" "pass" "member" servers
      (Users.register bcrypt "cid" "cid@x" "pass" "member" servers).1
      (record {
        user_id = "fresh";
        username = "cid";
        email = "cid@x";
        password_hash = "pass";
        role = "member";
        created_at = 7;
      })
      bcrypt-IsBcrypt refl refl refl

abbrev pair_access : Claims
pair_access = Tokens.claims_of service "manager" "access" "ann" "fresh" 7 900

abbrev pair_refresh : Claims
pair_refresh = Tokens.claims_of service "manager" "refresh" "ann" "fresh" 7 604800

jwt_auth-generate_token_pair_example :
    (jwt_auth service (some pair_access) servers).0 ≡ ok (record { id = "ann"; role = "manager" })
unfolding Tokens.generate_token_pair Tokens.now Tokens.new_uuid Tokens.insert exec is_down
    Db.insert_refresh_token exists find
jwt_auth-generate_token_pair_example =
    jwt_auth-generate_token_pair service "ann" "manager" servers pair_access pair_refresh servers
      jwt-IsJwt refl (omega arith) refl refl

jwt_auth_refuses_refresh_example : is_ok (jwt_auth service (some pair_refresh) servers).0 ≡ false
unfolding Tokens.generate_token_pair Tokens.now Tokens.new_uuid Tokens.insert exec is_down
    Db.insert_refresh_token exists
jwt_auth_refuses_refresh_example =
    jwt_auth_refuses_refresh service "ann" "manager" servers pair_access pair_refresh servers
      jwt-IsJwt refl

both_rotations_pass_example :
    let (p, q, w1) = in_turn service (checking ann_refresh) (checking ann_refresh) servers in
    let (p', q', w2) = in_turn service p q w1 in
    (p' ≡ issuing ann_refresh) × (q' ≡ issuing ann_refresh)
unfolding Db.is_refresh_token_valid exists
both_rotations_pass_example = both_rotations_pass service ann_refresh servers refl refl

walk-eq-users_example : walk 3 (number 1) "" servers ≡ some (map to_response (by_id tables.users))
walk-eq-users_example =
    walk-eq-users (number 1) 1 servers refl
      (((λ e. ground (arith, eq_iff "ann" "bob")), tt), (tt, tt)) ((refl, refl), ((refl, refl), tt))
      refl
