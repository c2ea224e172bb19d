-- ===== src/Auth/Replay.antt =====
-- A refresh token is good for one rotation: a replay is refused and revokes the user's tokens.
use seta_training.Prelude.{
  ℕ, String, true, false, some, List, [], ◌∷◌, ◌≡◌, refl, ok, err, is_ok, arith, eq_iff, is_down,
  later, inl, inr, Option-cases, Result-cases, Bool-cases, state-drop,
}
use seta_training.Auth.Libraries.{Claims, Bcrypt, IsJwt}
use seta_training.Auth.Db
use seta_training.Auth.Db.{Database}
use seta_training.Auth.Db.Spent.{
  IsSpent, NoneLive, is_refresh_token_valid-IsSpent, revoke_all-NoneLive,
}
use seta_training.Auth.World.{World, token_revoked, many, exec}
use seta_training.Auth.Quiet.{quiet_rules}
use seta_training.Auth.World.Keeps.{Keeps, Keeps-exec, keeps_rules}
use seta_training.Auth.Users
use seta_training.Auth.Tokens
use seta_training.Auth.Tokens.{Service, refresh_type}
use seta_training.Auth.Tokens.Parsing.{parse_token_same}
use seta_training.Auth.Tokens.Rotation.{
  generate_token_pair-Keeps, rotate-Keeps, revoke_session-Keeps, spend-IsSpent,
}
use seta_training.Auth.Requests.{
  Request, register, login, refresh, logout, list, wait, serve, run, log_in, pass_time,
}

-- The check of a token leaves the servers.
pub parsed_refresh_sound :
    {Token : Type 0} (s : Service Token) (t : Token) (w : World) (c : Claims)
    → (Tokens.parsed_refresh s t w).0 ≡ ok c
    → (Tokens.parse_token s t w ≡ some c) × (c.type ≡ refresh_type)
unfolding Tokens.parsed_refresh Tokens.parsed
parsed_refresh_sound s t w c h = elim (Option-cases (Tokens.parse_token s t w)) [
  | inl bad ↦ absurd (ground arith)
  | inr (y, is) ↦ ground (arith, eq_iff y.type refresh_type)
]

pub state-parsed_refresh :
    {Token : Type 0} (s : Service Token) (t : Token) (w : World)
    → (Tokens.parsed_refresh s t w).1 ≡ w
unfolding Tokens.parsed_refresh Tokens.parsed
state-parsed_refresh s t w = ground arith

-- A rotation that succeeds had a valid refresh token, and leaves it spent.
pub rotate-IsSpent :
    {Token : Type 0} (s : Service Token) (t : Token) (w : World)
    → is_ok (Tokens.rotate_refresh_token s t w).0 ≡ true
    → (c : Claims) × (Tokens.parse_token s t w ≡ some c)
      × (c.type ≡ refresh_type)
      × (Db.is_refresh_token_valid c.id w.db ≡ true)
      × IsSpent c.id (Tokens.rotate_refresh_token s t w).1.db
unfolding Tokens.rotate_refresh_token
rotate-IsSpent s t w h = elim (Result-cases (Tokens.parsed_refresh s t w).0) [
  | inr (e, failed) ↦ absurd (ground arith)
  | inl (c, found) ↦
      let w1 : World = (Tokens.parsed_refresh s t w).1 in
      let same = state-parsed_refresh s t w in
      let (is, type) = parsed_refresh_sound s t w c found in
      elim (Result-cases (Tokens.spend s c w1).0) [
        | inr (e, failed) ↦ absurd (ground arith)
        | inl (u, done) ↦
            let w2 : World = (Tokens.spend s c w1).1 in
            let (was, spent) = spend-IsSpent s c w1 (rw done refl) in
            let kept = (generate_token_pair-Keeps s c.id c.subject c.role).at w2 spent in
            (
              c,
              is,
              type,
              ground (arith, was, same),
              (ground (arith, kept.0), ground (arith, kept.1)),
            )
      ]
]

-- The users' side of the service leaves the tokens.
create-Keeps : (n m h r j : String) → Keeps (IsSpent j) (exec (Db.create_user n m h r))
unfolding Db.create_user
create-Keeps n m h r j =
    Keeps-exec _ (λ d x d' e spent. (ground (arith, spent.0), ground (arith, spent.1)))

ruleset user_rules = (keeps_rules, quiet_rules, create-Keeps)

module _ {Token : Type 0} (b : Bcrypt) (s : Service Token) (j : String) where
  register-Keeps : (n m p r : String) → Keeps (IsSpent j) (Users.register b n m p r)
  unfolding Users.register Users.create
  register-Keeps n m p r = search user_rules depth 14

  log_in-Keeps : (m p : String) → Keeps (IsSpent j) (log_in b s m p)
  unfolding log_in Users.login Users.find_by_email
  log_in-Keeps m p = search (user_rules, generate_token_pair-Keeps) depth 14

  list_page-Keeps : (c : String) (n : ℕ) → Keeps (IsSpent j) (Users.list_page c n)
  unfolding Users.list_page Users.count
  list_page-Keeps c n = search user_rules depth 10

  serve-IsSpent : (q : Request Token) (w : World) → IsSpent j w.db → IsSpent j (serve b s q w).1.db
  unfolding serve pass_time
  serve-IsSpent (register n m p r) w h =
      rw (state-drop (Users.register b n m p r) w) ((register-Keeps n m p r).at w h)
  serve-IsSpent (login m p) w h = rw (state-drop (log_in b s m p) w) ((log_in-Keeps m p).at w h)
  serve-IsSpent (refresh t) w h =
      rw (state-drop (Tokens.rotate_refresh_token s t) w) ((rotate-Keeps s j t).at w h)
  serve-IsSpent (logout a r) w h = (revoke_session-Keeps s j a r).at w h
  serve-IsSpent (list c n) w h =
      rw (state-drop (Users.list_page c n) w) ((list_page-Keeps c n).at w h)
  serve-IsSpent (wait n) w h = h

  pub run-IsSpent :
      (qs : List (Request Token)) (w : World) → IsSpent j w.db → IsSpent j (run b s qs w).db
  unfolding run
  run-IsSpent [] w h = h
  run-IsSpent (q ∷ qs) w h = run-IsSpent qs (serve b s q w).1 (serve-IsSpent q w h)

-- A token that is spent after it parsed is refused after any requests.
pub rotate_spent_later :
    {Token : Type 0} (b : Bcrypt) (s : Service Token) (t : Token) (c : Claims) (w : World)
    (qs : List (Request Token)) (v : World)
    → IsJwt s.jwt
    → Tokens.parse_token s t w ≡ some c
    → IsSpent c.id v.db
    → is_ok (Tokens.rotate_refresh_token s t (run b s qs v)).0 ≡ false
rotate_spent_later b s t c w qs v lib is spent =
    elim (Bool-cases (is_ok (Tokens.rotate_refresh_token s t (run b s qs v)).0)) [
      | inr refused ↦ refused
      | inl again ↦
          let (c', is', _, was, _) = rotate-IsSpent s t (run b s qs v) again in
          let same : c' ≡ c = parse_token_same s t lib w (run b s qs v) c c' is is' in
          absurd (
            ground (
              arith,
              same,
              was,
              is_refresh_token_valid-IsSpent c.id (run b s qs v).db
                  (run-IsSpent b s c.id qs v spent),
            ))
    ]

-- A refresh token that has been rotated is never rotated again: whatever requests come between,
-- however long they take and whichever calls fail, if the claims that the library reads in a token
-- do not change.
pub rotate_once :
    {Token : Type 0} (b : Bcrypt) (s : Service Token) (t : Token) (qs : List (Request Token))
    (w : World)
    → IsJwt s.jwt
    → is_ok (Tokens.rotate_refresh_token s t w).0 ≡ true
    → is_ok (Tokens.rotate_refresh_token s t (run b s qs (Tokens.rotate_refresh_token s t w).1)).0
      ≡ false
rotate_once b s t qs w lib good =
    let (c, is, _, _, spent) = rotate-IsSpent s t w good in
    rotate_spent_later b s t c w qs (Tokens.rotate_refresh_token s t w).1 lib is spent

revoke_all-total :
    (u : String) (d : Database) → is_ok (Db.revoke_all_refresh_tokens_for_user u d) ≡ true
unfolding Db.revoke_all_refresh_tokens_for_user
revoke_all-total u d = refl

-- The replay of a refresh token that is spent, while no call fails, is answered as such and leaves the
-- user no token that can be rotated.
pub replay_revokes_all :
    {Token : Type 0} (s : Service Token) (t : Token) (c : Claims) (w : World)
    → Tokens.parse_token s t w ≡ some c
    → c.type ≡ refresh_type
    → IsSpent c.id w.db
    → w.outages ≡ []
    → ((Tokens.rotate_refresh_token s t w).0 ≡ err token_revoked)
      × NoneLive c.subject (Tokens.rotate_refresh_token s t w).1.db
unfolding Tokens.rotate_refresh_token Tokens.parsed_refresh Tokens.parsed Tokens.spend Tokens.reuse
    Tokens.is_valid Tokens.revoke_all_for_user many exec is_down later
replay_revokes_all s t c w is type spent up =
    elim (Result-cases (Db.revoke_all_refresh_tokens_for_user c.subject w.db)) [
      | inr (e, failed) ↦ absurd (ground (arith, revoke_all-total c.subject w.db))
      | inl (x, done) ↦ (
        ground (arith, is_refresh_token_valid-IsSpent c.id w.db spent, eq_iff c.type refresh_type),
        ground (
          arith,
          is_refresh_token_valid-IsSpent c.id w.db spent,
          eq_iff c.type refresh_type,
          revoke_all-NoneLive c.subject w.db x.1,
        ),
      )
    ]
