-- ===== src/Core/Team/Cache.antt =====
-- The cache of a team's members: while Redis answers, a request that changes the members of a team
-- drops its entry, so that a list from the cache is the list in the database.
use seta_training.Prelude.{
  String, List, [], ◌≡◌, none, some, ok, is_ok, arith, eq_iff, state-drop, Bool-cases, inl, inr,
  exists-eq-find,
}
use seta_training.Core.Db.{Database, TeamRow}
use seta_training.Core.Db.Teams
use seta_training.Core.Db.Membership
use seta_training.Core.World.{World, TeamMember, one, many, redis_get, redis_set}
use seta_training.Core.Team.Repository
use seta_training.Core.Team.{
  create_team, add_member, remove_member, promote_to_manager, demote_from_manager, get_members,
}
use seta_training.Core.Team.Requests.{Request, create, add, remove, promote, demote, members, serve}
use seta_training.Core.Team.Access.{
  add_member-Keeps, remove_member-Keeps, promote_to_manager-Keeps, demote_from_manager-Keeps,
  create_team-Keeps,
}
use seta_training.Core.Team.Consistent.{IsConsistent}
use seta_training.Core.Team.Effects.{
  add_member_query, remove_member_query, promote_to_manager_query, demote_from_manager_query,
  add_member-Drops, remove_member-Drops, promote_to_manager-Drops, demote_from_manager-Drops,
  create_team_query, redis-create_team,
}
use seta_training.Core.Team.Coherence.{
  listing, Frame, add-Frame, remove-Frame, IsCoherent, same-IsCoherent, changed-IsCoherent,
}
use seta_training.Core.Team.Filling.{get_members-IsCoherent}

module _ (t c u : String) (w : World) (up : w.outages ≡ []) (h : IsCoherent w) where
  add_member-IsCoherent : IsCoherent (add_member t c u w).1
  add_member-IsCoherent =
      changed-IsCoherent t w (add_member t c u w).0 (add_member t c u w).1
        (λ k. (
          add-Frame t u "member" w.db _ (add_member_query t c u w k),
          ground (arith, add_member-Drops t c u w up),
        ))
        (λ k.
          (ground (arith, add_member-Keeps t c u w), ground (arith, add_member-Drops t c u w up)))
        h

  remove_member-IsCoherent : IsCoherent (remove_member t c u w).1
  remove_member-IsCoherent =
      changed-IsCoherent t w (remove_member t c u w).0 (remove_member t c u w).1
        (λ k. (
          remove-Frame t u w.db _ _ (remove_member_query t c u w k).1,
          ground (arith, remove_member-Drops t c u w up),
        ))
        (λ k. (
          ground (arith, remove_member-Keeps t c u w),
          ground (arith, remove_member-Drops t c u w up),
        ))
        h

  promote_to_manager-IsCoherent : IsCoherent (promote_to_manager t c u w).1
  promote_to_manager-IsCoherent =
      changed-IsCoherent t w (promote_to_manager t c u w).0 (promote_to_manager t c u w).1
        (λ k. (
          add-Frame t u "manager" w.db _ (promote_to_manager_query t c u w k),
          ground (arith, promote_to_manager-Drops t c u w up),
        ))
        (λ k. (
          ground (arith, promote_to_manager-Keeps t c u w),
          ground (arith, promote_to_manager-Drops t c u w up),
        ))
        h

  demote_from_manager-IsCoherent : IsCoherent (demote_from_manager t c u w).1
  demote_from_manager-IsCoherent =
      changed-IsCoherent t w (demote_from_manager t c u w).0 (demote_from_manager t c u w).1
        (λ k. (
          add-Frame t u "member" w.db _ (demote_from_manager_query t c u w k),
          ground (arith, demote_from_manager-Drops t c u w up),
        ))
        (λ k. (
          ground (arith, demote_from_manager-Keeps t c u w),
          ground (arith, demote_from_manager-Drops t c u w up),
        ))
        h

-- The listings of a database with one more team.
listing-create :
    (n c t' : String) (d : Database) {row : TeamRow} {d' : Database}
    → Teams.create_team n c d ≡ some (row, d')
    → (listing t' d' ≡ listing t' d) × (d'.now ≡ d.now)
unfolding Teams.create_team Teams.get_team_members
listing-create n c t' d h = (ground arith, ground arith)

-- The new team's id was no team's.
id-create :
    (n c : String) (d : Database) {row : TeamRow} {d' : Database}
    → Teams.create_team n c d ≡ some (row, d')
    → Teams.get_team_by_id row.team_id d ≡ none
unfolding Teams.create_team Teams.get_team_by_id
id-create n c d {row} h = ground (arith, exists-eq-find (Teams.is_team row.team_id) d.teams)

create_team-IsCoherent :
    (c n : String) (w : World) → IsCoherent w → IsCoherent (create_team c n w).1
create_team-IsCoherent c n w h = elim (Bool-cases (is_ok (create_team c n w).0)) [
  | inr bad ↦
      same-IsCoherent w _ (ground (arith, create_team-Keeps c n w)) (redis-create_team c n w) h
  | inl good ↦
      let (row, d, first, second) = create_team_query c n w good in
      let frame : Frame row.team_id d (create_team c n w).1.db =
        add-Frame row.team_id c "manager" d _ second in
      record {
        fresh = λ t ms e. ground (
          arith,
          redis-create_team c n w,
          frame.0 t,
          frame.2,
          listing-create n c t w.db first,
          id-create n c w.db first,
          h.fresh t ms,
          h.known t ms,
          eq_iff row.team_id t,
        );
        known = λ t ms e. ground (
          arith,
          redis-create_team c n w,
          frame.1 t,
          frame.2,
          listing-create n c t w.db first,
          Membership.get_team_by_id-create n c t w.db first,
          h.known t ms,
        );
      }
]

-- A list of members that a member gets, whichever calls fail, is the one in the database, if the
-- lists in the cache are.
pub get_members-eq-listing :
    (t c : String) (w : World) (ms : List TeamMember)
    → IsCoherent w
    → (get_members t c w).0 ≡ ok ms
    → ms ≡ listing t w.db
unfolding get_members Repository.get_member_role Repository.list_members one many redis_get
    redis_set
get_members-eq-listing t c w ms h e = ground (arith, h.fresh t ms)

-- While no call fails, every request to the team service keeps the lists of members in the cache
-- equal to those in the database, and of teams that are there: if both held before, and if every row of
-- a member had its team and its user, with one of the two roles, and every team's creator was a user.
pub serve-IsCoherent :
    (r : Request) (w : World)
    → w.outages ≡ []
    → IsConsistent w.db
    → IsCoherent w
    → IsCoherent (serve r w).1
unfolding serve
serve-IsCoherent (create c n) w up con h =
    rw (state-drop (create_team c n) w) (create_team-IsCoherent c n w h)
serve-IsCoherent (add t c u) w up con h = add_member-IsCoherent t c u w up h
serve-IsCoherent (remove t c u) w up con h = remove_member-IsCoherent t c u w up h
serve-IsCoherent (promote t c u) w up con h = promote_to_manager-IsCoherent t c u w up h
serve-IsCoherent (demote t c u) w up con h = demote_from_manager-IsCoherent t c u w up h
serve-IsCoherent (members t c) w up con h =
    rw (state-drop (get_members t c) w) (get_members-IsCoherent t c w con h)
