-- ===== src/Core/Team/Effects.antt =====
-- What a request to a team's members that succeeds has done to the servers: one statement of SQL,
-- and, while Redis answers, the entry of the team is dropped from the cache.
use seta_training.Prelude.{
  ℕ, String, true, not, List, [], ◌≡◌, ◌==◌, some, Result, ok, err, is_ok, arith, select, length,
  is_down, later, Option-cases, inl, inr,
}
use seta_training.Core.Db.{Database, TeamRow}
use seta_training.Core.Db.Teams
use seta_training.Core.World.{Error, World, Entry, one, exec, transaction, redis_del, publish}
use seta_training.Core.World.Keys.{team_members_key}
use seta_training.Core.Team.Repository
use seta_training.Core.Team.{
  create_team, add_member, remove_member, promote_to_manager, demote_from_manager,
  require_team_manager, require_team_creator,
}
use seta_training.Core.Team.Access.{db-require_team_manager, db-require_team_creator}

pub redis-require_team_manager :
    (t u : String) (w : World) → (require_team_manager t u w).1.redis ≡ w.redis
unfolding require_team_manager Repository.get_by_id Repository.get_member_role one
redis-require_team_manager t u w = ground arith

pub redis-require_team_creator :
    (t u : String) (w : World) → (require_team_creator t u w).1.redis ≡ w.redis
unfolding require_team_creator Repository.get_by_id one
redis-require_team_creator t u w = ground arith

pub up-require_team_manager :
    (t u : String) (w : World) → w.outages ≡ [] → (require_team_manager t u w).1.outages ≡ []
unfolding require_team_manager Repository.get_by_id Repository.get_member_role one later is_down
up-require_team_manager t u w h = ground arith

pub up-require_team_creator :
    (t u : String) (w : World) → w.outages ≡ [] → (require_team_creator t u w).1.outages ≡ []
unfolding require_team_creator Repository.get_by_id one later is_down
up-require_team_creator t u w h = ground arith

-- The cache without the entry of a team.
abbrev pub dropped : String → List Entry → List Entry
dropped t = select (λ e. not (e.key == team_members_key t))

-- What a request to the members of team `t` leaves in the cache.
abbrev pub Drops : {A : Type 0} → String → World → Result Error A × World → Type 0
Drops t w (ok a, w') = w'.redis ≡ dropped t w.redis
Drops t w (err e, w') = w'.redis ≡ w.redis

module _ (t c u : String) (w : World) where
  pub add_member_query :
      is_ok (add_member t c u w).0 ≡ true
      → Teams.add_team_member t u "member" w.db ≡ some (tt, (add_member t c u w).1.db)
  unfolding add_member Repository.get_member_role Repository.get_user_by_id Repository.add_member
      one exec publish redis_del
  add_member_query h = ground (arith, db-require_team_manager t c w)

  pub remove_member_query :
      is_ok (remove_member t c u w).0 ≡ true
      → (n : ℕ) × (Teams.remove_team_member t u w.db ≡ some (n, (remove_member t c u w).1.db))
  unfolding remove_member Repository.remove_member exec publish redis_del Teams.remove_team_member
  remove_member_query h = (
    length (select (Teams.is_member t u) w.db.members),
    ground (arith, db-require_team_manager t c w),
  )

  pub promote_to_manager_query :
      is_ok (promote_to_manager t c u w).0 ≡ true
      → Teams.add_team_member t u "manager" w.db ≡ some (tt, (promote_to_manager t c u w).1.db)
  unfolding promote_to_manager Repository.get_user_by_id Repository.add_member one exec publish
      redis_del
  promote_to_manager_query h = ground (arith, db-require_team_creator t c w)

  pub demote_from_manager_query :
      is_ok (demote_from_manager t c u w).0 ≡ true
      → Teams.add_team_member t u "member" w.db ≡ some (tt, (demote_from_manager t c u w).1.db)
  unfolding demote_from_manager Repository.get_member_role Repository.add_member one exec publish
      redis_del
  demote_from_manager_query h = ground (arith, db-require_team_creator t c w)

  module _ (up : w.outages ≡ []) where
    pub add_member-Drops : Drops t w (add_member t c u w)
    unfolding add_member Repository.get_member_role Repository.get_user_by_id Repository.add_member
        one exec publish redis_del later is_down
    add_member-Drops =
        ground (arith, redis-require_team_manager t c w, up-require_team_manager t c w)

    pub remove_member-Drops : Drops t w (remove_member t c u w)
    unfolding remove_member Repository.remove_member exec publish redis_del later is_down
    remove_member-Drops =
        ground (arith, redis-require_team_manager t c w, up-require_team_manager t c w)

    pub promote_to_manager-Drops : Drops t w (promote_to_manager t c u w)
    unfolding promote_to_manager Repository.get_user_by_id Repository.add_member one exec publish
        redis_del later is_down
    promote_to_manager-Drops =
        ground (arith, redis-require_team_creator t c w, up-require_team_creator t c w)

    pub demote_from_manager-Drops : Drops t w (demote_from_manager t c u w)
    unfolding demote_from_manager Repository.get_member_role Repository.add_member one exec publish
        redis_del later is_down
    demote_from_manager-Drops =
        ground (arith, redis-require_team_creator t c w, up-require_team_creator t c w)

-- A new team is two statements, of which both or none take effect; the cache is left alone.
pub create_team_query :
    (c n : String) (w : World)
    → is_ok (create_team c n w).0 ≡ true
    → (row : TeamRow) × (d : Database) × (Teams.create_team n c w.db ≡ some (row, d))
      × (Teams.add_team_member row.team_id c "manager" d ≡ some (tt, (create_team c n w).1.db))
unfolding create_team Repository.create_with_manager exec transaction publish
create_team_query c n w h = elim (Option-cases (Teams.create_team n c w.db)) [
  | inl e ↦ absurd (ground arith)
  | inr (a, e) ↦ (a.0, a.1, ground arith, ground arith)
]

pub redis-create_team : (c n : String) (w : World) → (create_team c n w).1.redis ≡ w.redis
unfolding create_team Repository.create_with_manager exec transaction publish
redis-create_team c n w = ground arith
