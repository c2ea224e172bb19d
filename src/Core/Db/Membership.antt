-- ===== src/Core/Db/Membership.antt =====
-- The members of a team as a map from a team and a user to a role, under each query that writes.
use seta_training.Prelude.{
  ℕ, [], ◌∷◌, String, not, ◌≡◌, ◌&&◌, ◌==◌, none, some, arith, eq_iff, inl, inr, Bool-cases, find,
  find-upsert_hit, find-upsert_miss, find-select_keep, find-select_drop, find-append,
  exists-eq-find, pair_same, pair_apart, if◌then◌else◌,
}
use seta_training.Core.Db.Tables.{TeamRow, Database}
use seta_training.Core.Db.Users.{get_user_projection_by_id}
use seta_training.Core.Db.Teams.{
  is_member, is_team, member_row, get_member_role, add_team_member, remove_team_member, create_team,
  get_team_by_id,
}

module _ (t u role t' u' : String) (d : Database) {d' : Database}
    (done : add_team_member t u role d ≡ some (tt, d')) where
  -- The row of the key is as given, and every other row is as before.
  pub member_row-add : member_row t' u' d' ≡ (
      if t == t' && u == u'
      then some (record { team_id = t; user_id = u; role = role })
      else member_row t' u' d)
  unfolding member_row add_team_member
  member_row-add = elim (Bool-cases (t == t' && u == u')) [
    | inl hit ↦ ground (
      arith,
      find-upsert_hit (is_member t u) (is_member t' u')
          (record { team_id = t; user_id = u; role = role }) d.members hit
          (λ x. pair_same t u t' u' x.team_id x.user_id hit),
    )
    | inr miss ↦ ground (
      arith,
      find-upsert_miss (is_member t u) (is_member t' u')
          (record { team_id = t; user_id = u; role = role }) d.members miss
          (λ x. pair_apart t u t' u' x.team_id x.user_id miss),
    )
  ]

  pub users-add : get_user_projection_by_id u' d' ≡ get_user_projection_by_id u' d
  unfolding add_team_member get_user_projection_by_id
  users-add = ground arith

  pub get_member_role-add : get_member_role t' u' d' ≡ (
      if t == t' && u == u'
      then (elim (get_user_projection_by_id u d) [ none ↦ none | some _ ↦ some role ])
      else get_member_role t' u' d)
  unfolding get_member_role
  get_member_role-add = ground (arith, member_row-add, users-add, eq_iff u u')

module _ (t u t' u' : String) (d : Database) {n : ℕ} {d' : Database}
    (done : remove_team_member t u d ≡ some (n, d')) where
  pub member_row-remove :
      member_row t' u' d' ≡ (if t == t' && u == u' then none else member_row t' u' d)
  unfolding member_row remove_team_member
  member_row-remove = elim (Bool-cases (t == t' && u == u')) [
    | inl hit ↦ ground (
      arith,
      find-select_drop (λ r. not (is_member t u r)) (is_member t' u') d.members
          (λ x h. ground (arith, pair_same t u t' u' x.team_id x.user_id hit)),
    )
    | inr miss ↦ ground (
      arith,
      find-select_keep (λ r. not (is_member t u r)) (is_member t' u') d.members
          (λ x h. ground (arith, pair_apart t u t' u' x.team_id x.user_id miss)),
    )
  ]

  pub users-remove : get_user_projection_by_id u' d' ≡ get_user_projection_by_id u' d
  unfolding remove_team_member get_user_projection_by_id
  users-remove = ground arith

  pub get_member_role-remove :
      get_member_role t' u' d' ≡ (if t == t' && u == u' then none else get_member_role t' u' d)
  unfolding get_member_role
  get_member_role-remove = ground (arith, member_row-remove, users-remove)

-- A new team has the id that was generated, which no team had, and the others are as before.
pub get_team_by_id-create :
    (name creator t : String) (d : Database) {row : TeamRow} {d' : Database}
    → create_team name creator d ≡ some (row, d')
    → get_team_by_id t d' ≡ (if row.team_id == t then some row else get_team_by_id t d)
unfolding create_team get_team_by_id find
get_team_by_id-create name creator t d {row} h = ground (
  arith,
  find-append (is_team t) d.teams (row ∷ []),
  exists-eq-find (is_team row.team_id) d.teams,
  eq_iff row.team_id t,
)

pub create_team_frame :
    (name creator : String) (d : Database) {row : TeamRow} {d' : Database}
    → create_team name creator d ≡ some (row, d')
    → (row.team_id ≡ d.uuid d.issued) × (d'.members ≡ d.members) × (d'.users ≡ d.users)
unfolding create_team
create_team_frame name creator d h = ground arith
