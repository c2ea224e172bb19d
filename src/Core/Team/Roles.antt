-- ===== src/Core/Team/Roles.antt =====
-- What the team service's requests make of the roles: a team as a map from users to roles.
use seta_training.Prelude.{
  String, true, ◌≡◌, ◌&&◌, ◌==◌, Option, none, some, is_ok, arith, later, if◌then◌else◌,
  Option-cases, inl, inr,
}
use seta_training.Core.Db.{Database}
use seta_training.Core.Db.Users
use seta_training.Core.Db.Teams
use seta_training.Core.Db.Membership
use seta_training.Core.World.{World, one, exec, redis_del, publish, transaction}
use seta_training.Core.Team.Repository
use seta_training.Core.Team.{
  create_team, add_member, remove_member, promote_to_manager, demote_from_manager,
  require_team_manager, require_team_creator,
}
use seta_training.Core.Team.Requests.{Request, create, add, remove, promote, demote, members, serve}
use seta_training.Core.Team.Access.{
  db-require_team_manager, db-require_team_creator, db-get_members,
}

-- A role, for a user who is not deleted.
abbrev pub if_live : String → String → Database → Option String
if_live u role d = elim (Users.get_user_projection_by_id u d) [ none ↦ none | some _ ↦ some role ]

module _ (t u role t' u' : String) (w : World)
    (done : is_ok (Repository.add_member t u role w).0 ≡ true) where
  role-add_member :
      Teams.get_member_role t' u' (Repository.add_member t u role w).1.db
      ≡ (if t == t' && u == u' then if_live u role w.db else Teams.get_member_role t' u' w.db)
  unfolding Repository.add_member exec
  role-add_member = elim (Option-cases (Teams.add_team_member t u role w.db)) [
    | inl e ↦ ground arith
    | inr (a, e) ↦ ground (arith, Membership.get_member_role-add t u role t' u' w.db {d' = a.1} e)
  ]

module _ (t u t' u' : String) (w : World)
    (done : is_ok (Repository.remove_member t u w).0 ≡ true) where
  role-remove_member :
      Teams.get_member_role t' u' (Repository.remove_member t u w).1.db
      ≡ (if t == t' && u == u' then none else Teams.get_member_role t' u' w.db)
  unfolding Repository.remove_member exec
  role-remove_member = elim (Option-cases (Teams.remove_team_member t u w.db)) [
    | inl e ↦ ground arith
    | inr (a, e) ↦ ground (arith, Membership.get_member_role-remove t u t' u' w.db {d' = a.1} e)
  ]

-- The servers after a call that only takes an entry of the outages.
abbrev passed : World → World
passed w = record w { outages = later w.outages }

-- The roles that the rules say a successful request leaves.
abbrev pub role_after : Request → String → String → Database → Option String
role_after (create c n) t' u' d =
    if d.uuid d.issued == t' && c == u'
    then if_live c "manager" d
    else Teams.get_member_role t' u' d
role_after (add t c u) t' u' d =
    if t == t' && u == u' then some "member" else Teams.get_member_role t' u' d
role_after (remove t c u) t' u' d =
    if t == t' && u == u' then none else Teams.get_member_role t' u' d
role_after (promote t c u) t' u' d =
    if t == t' && u == u' then some "manager" else Teams.get_member_role t' u' d
role_after (demote t c u) t' u' d =
    if t == t' && u == u' then some "member" else Teams.get_member_role t' u' d
role_after (members t c) t' u' d = Teams.get_member_role t' u' d

module _ (t c u t' u' : String) (w : World) where
  add_member-role :
      is_ok (add_member t c u w).0 ≡ true
      → Teams.get_member_role t' u' (add_member t c u w).1.db ≡ role_after (add t c u) t' u' w.db
  unfolding add_member Repository.get_member_role Repository.get_user_by_id one publish redis_del
  add_member-role h = ground (
    arith,
    db-require_team_manager t c w,
    role-add_member t u "member" t' u' (passed (passed (require_team_manager t c w).1)),
  )

  remove_member-role :
      is_ok (remove_member t c u w).0 ≡ true
      → Teams.get_member_role t' u' (remove_member t c u w).1.db
        ≡ role_after (remove t c u) t' u' w.db
  unfolding remove_member publish redis_del
  remove_member-role h = ground (
    arith,
    db-require_team_manager t c w,
    role-remove_member t u t' u' (require_team_manager t c w).1,
  )

  promote_to_manager-role :
      is_ok (promote_to_manager t c u w).0 ≡ true
      → Teams.get_member_role t' u' (promote_to_manager t c u w).1.db
        ≡ role_after (promote t c u) t' u' w.db
  unfolding promote_to_manager Repository.get_user_by_id one publish redis_del
  promote_to_manager-role h = ground (
    arith,
    db-require_team_creator t c w,
    role-add_member t u "manager" t' u' (passed (require_team_creator t c w).1),
  )

  demote_from_manager-role :
      is_ok (demote_from_manager t c u w).0 ≡ true
      → Teams.get_member_role t' u' (demote_from_manager t c u w).1.db
        ≡ role_after (demote t c u) t' u' w.db
  unfolding demote_from_manager Repository.get_member_role one publish redis_del
      Teams.get_member_role
  demote_from_manager-role h = ground (
    arith,
    db-require_team_creator t c w,
    role-add_member t u "member" t' u' (passed (require_team_creator t c w).1),
  )

-- The roles and the users of a database depend on two of its tables.
create_role_step :
    (c t' u' : String) (d d' : Database) (id : String)
    → (id ≡ d.uuid d.issued) × (d'.members ≡ d.members) × (d'.users ≡ d.users)
    → (id ≡ d.uuid d.issued)
      × (Teams.get_member_role t' u' d' ≡ Teams.get_member_role t' u' d)
      × (Users.get_user_projection_by_id c d' ≡ Users.get_user_projection_by_id c d)
unfolding Teams.get_member_role Users.get_user_projection_by_id
create_role_step c t' u' d d' id h = (h.0, rw (h.1, h.2), rw (h.2))

create_team-role :
    (c n t' u' : String) (w : World)
    → is_ok (create_team c n w).0 ≡ true
    → Teams.get_member_role t' u' (create_team c n w).1.db ≡ role_after (create c n) t' u' w.db
unfolding create_team Repository.create_with_manager exec transaction publish
create_team-role c n t' u' w h = elim (Option-cases (Teams.create_team n c w.db)) [
  | inl e ↦ ground arith
  | inr (a, e) ↦ elim (Option-cases (Teams.add_team_member a.0.team_id c "manager" a.1)) [
    | inl f ↦ ground arith
    | inr (b, f) ↦ ground (
      arith,
      create_role_step c t' u' w.db a.1 a.0.team_id
          (Membership.create_team_frame n c w.db {row = a.0} {d' = a.1} e),
      Membership.get_member_role-add a.0.team_id c "manager" t' u' a.1 {d' = b.1} f,
    )
  ]
]

-- A request to the team service that succeeds leaves, for every team and user, the role that the
-- rules say: the added and demoted user is a member, the promoted one a manager (a member before or
-- not), the creator of a new team its manager, the removed one has no role, and no other role changes.
pub serve-role_after :
    (r : Request) (t' u' : String) (w : World)
    → is_ok (serve r w).0 ≡ true
    → Teams.get_member_role t' u' (serve r w).1.db ≡ role_after r t' u' w.db
unfolding serve
serve-role_after (create c n) t' u' w h = ground (arith, create_team-role c n t' u' w)
serve-role_after (add t c u) t' u' w h = add_member-role t c u t' u' w h
serve-role_after (remove t c u) t' u' w h = remove_member-role t c u t' u' w h
serve-role_after (promote t c u) t' u' w h = promote_to_manager-role t c u t' u' w h
serve-role_after (demote t c u) t' u' w h = demote_from_manager-role t c u t' u' w h
serve-role_after (members t c) t' u' w h = ground (arith, db-get_members t c w)
