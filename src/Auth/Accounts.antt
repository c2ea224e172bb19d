-- ===== src/Auth/Accounts.antt =====
-- What auth-service stores of passwords: what bcrypt makes of them, whatever requests it serves.
use seta_training.Prelude.{String, ◌≡◌, some, ok, Result, arith, All, ℕ, ◌>>=◌, ◌>>◌}
use seta_training.Auth.Libraries.{Bcrypt}
use seta_training.Auth.Db
use seta_training.Auth.Db.{
  Database, DbError, RefreshToken, is_user, has_email, is_token, is_of, revoke_if,
}
use seta_training.Auth.World.{World, exec}
use seta_training.Auth.World.Keeps.{Keeps, Keeps-exec, keeps_rules}
use seta_training.Auth.Users
use seta_training.Auth.Tokens
use seta_training.Auth.Quiet.{quiet_rules}

-- The hash of every user is one that bcrypt has made of a password.
abbrev pub IsHashed : Bcrypt → Database → Type 0
IsHashed b d =
    All (λ u. (salt : ℕ) × (p : String) × (b.generate salt p ≡ some u.password_hash)) d.users

module _ (b : Bcrypt) where
  -- A statement that leaves the users as they are.
  tokens-Keeps :
      {A : Type 0} (f : Database → Result DbError (A × Database))
      → ((d : Database) (a : A) (d' : Database) → f d ≡ ok (a, d') → d'.users ≡ d.users)
      → Keeps (IsHashed b) (exec f)
  tokens-Keeps f same = Keeps-exec f (λ d a d' done h. rw (same d a d' done) h)

  mark-Keeps : (j : String) → Keeps (IsHashed b) (exec (Db.mark_refresh_token_revoked j))
  unfolding Db.mark_refresh_token_revoked
  mark-Keeps j = tokens-Keeps _ (λ d a d' done. ground arith)

  revoke_all-Keeps :
      (u : String) → Keeps (IsHashed b) (exec (Db.revoke_all_refresh_tokens_for_user u))
  unfolding Db.revoke_all_refresh_tokens_for_user
  revoke_all-Keeps u = tokens-Keeps _ (λ d a d' done. ground arith)

  insert-Keeps : (j u : String) (n : ℕ) → Keeps (IsHashed b) (exec (Db.insert_refresh_token j u n))
  unfolding Db.insert_refresh_token
  insert-Keeps j u n = tokens-Keeps _ (λ d a d' done. ground arith)

  new_uuid-Keeps : Keeps (IsHashed b) Tokens.new_uuid
  unfolding Tokens.new_uuid
  new_uuid-Keeps = record { at = λ w h. h }

ruleset account_rules =
    (keeps_rules, quiet_rules, mark-Keeps, revoke_all-Keeps, insert-Keeps, new_uuid-Keeps)
