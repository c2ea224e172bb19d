-- ===== src/Auth/Tokens/Rotation.antt =====
-- A rotation of a refresh token spends it, and what is spent stays so under every call.
use seta_training.Prelude.{ℕ, String, true, ◌≡◌, is_ok, arith, inl, inr, Result-cases}
use seta_training.Auth.Libraries.{Claims}
use seta_training.Auth.Db
use seta_training.Auth.Db.{Database}
use seta_training.Auth.Db.Spent.{
  IsSpent, mark-IsSpent, mark_keeps_IsSpent, revoke_all_keeps_IsSpent, insert_keeps_IsSpent,
}
use seta_training.Auth.World.{World, many, exec}
use seta_training.Auth.Quiet.{quiet_rules}
use seta_training.Auth.World.Keeps.{Keeps, Keeps-exec, keeps_rules}
use seta_training.Auth.Tokens
use seta_training.Auth.Tokens.{Service, refresh_type}

mark_revoked-Keeps : (i j : String) → Keeps (IsSpent j) (Tokens.mark_revoked i)
unfolding Tokens.mark_revoked
mark_revoked-Keeps i j = Keeps-exec _ (λ d x d' h spent. mark_keeps_IsSpent i j d d' h spent)

revoke_all-Keeps : (u j : String) → Keeps (IsSpent j) (Tokens.revoke_all_for_user u)
unfolding Tokens.revoke_all_for_user
revoke_all-Keeps u j = Keeps-exec _ (λ d x d' h spent. revoke_all_keeps_IsSpent u j d d' h spent)

insert-Keeps : (i u j : String) (n : ℕ) → Keeps (IsSpent j) (Tokens.insert i u n)
unfolding Tokens.insert
insert-Keeps i u j n = Keeps-exec _ (λ d x d' h spent. insert_keeps_IsSpent i u j n d d' h spent)

new_uuid-Keeps : (j : String) → Keeps (IsSpent j) Tokens.new_uuid
unfolding Tokens.new_uuid
new_uuid-Keeps j = record { at = λ w h. h }

ruleset spent_rules =
    (keeps_rules, quiet_rules, mark_revoked-Keeps, revoke_all-Keeps, insert-Keeps, new_uuid-Keeps)

module _ {Token : Type 0} (s : Service Token) (j : String) where
  parsed_refresh-Keeps : (t : Token) → Keeps (IsSpent j) (Tokens.parsed_refresh s t)
  unfolding Tokens.parsed_refresh
  parsed_refresh-Keeps t = search spent_rules depth 8

  pub generate_token_pair-Keeps :
      (u r : String) → Keeps (IsSpent j) (Tokens.generate_token_pair s u r)
  unfolding Tokens.generate_token_pair
  generate_token_pair-Keeps u r = search spent_rules depth 16

  spend-Keeps : (c : Claims) → Keeps (IsSpent j) (Tokens.spend s c)
  unfolding Tokens.spend Tokens.reuse Tokens.is_valid
  spend-Keeps c = search spent_rules depth 14

  pub rotate-Keeps : (t : Token) → Keeps (IsSpent j) (Tokens.rotate_refresh_token s t)
  unfolding Tokens.rotate_refresh_token
  rotate-Keeps t =
      search (spent_rules, parsed_refresh-Keeps, spend-Keeps, generate_token_pair-Keeps) depth 8

  pub revoke_session-Keeps : (a r : Token) → Keeps (IsSpent j) (Tokens.revoke_session s a r)
  unfolding Tokens.revoke_session
  revoke_session-Keeps a r = search (spent_rules, parsed_refresh-Keeps) depth 12

-- A token that is spent by a call of `spend` was valid.
pub spend-IsSpent :
    {Token : Type 0} (s : Service Token) (c : Claims) (w : World)
    → is_ok (Tokens.spend s c w).0 ≡ true
    → (Db.is_refresh_token_valid c.id w.db ≡ true) × IsSpent c.id (Tokens.spend s c w).1.db
unfolding Tokens.spend Tokens.reuse Tokens.is_valid Tokens.mark_revoked Tokens.revoke_all_for_user
    many exec
spend-IsSpent s c w h = elim (Result-cases (Db.mark_refresh_token_revoked c.id w.db)) [
  | inr (e, failed) ↦ absurd (ground arith)
  | inl (x, done) ↦
      let was : Db.is_refresh_token_valid c.id w.db ≡ true = ground arith in
      let spent = mark-IsSpent c.id w.db x.1 was done in
      (was, (ground (arith, spent.0), ground (arith, spent.1)))
]
