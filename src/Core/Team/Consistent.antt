-- ===== src/Core/Team/Consistent.antt =====
-- The constraints of the team tables as an invariant, kept by every request, whichever calls fail.
use seta_training.Prelude.{
  ℕ, zero, suc, List, [], ◌∷◌, String, true, ◌≡◌, ◌≢◌, Option, none, some, Result, ok, err, arith,
  eq_iff, exists-eq-find,
}
use seta_training.Core.Db.{Database, TeamRow, MemberRow}
use seta_training.Core.Db.Tables.{is_role}
use seta_training.Core.Db.Users
use seta_training.Core.Db.Teams
use seta_training.Core.Db.Membership
use seta_training.Core.World.{Error, no_rows, World, TeamMember, exec}
use seta_training.Core.World.Keeps.{Keeps, Keeps-exec, Keeps-transaction, keeps_rules}
use seta_training.Core.Team.Repository
use seta_training.Core.Team.{
  create_team, add_member, remove_member, promote_to_manager, demote_from_manager, get_members,
  refuse_member, load_members,
}
use seta_training.Core.Team.Requests.{
  Request, create, add, remove, promote, demote, members, serve, run,
}

-- Every member row has its team and its user, and one of the two roles; every team's creator is a
-- user.
pub record IsConsistent (d : Database) : Type 0 where
  pub member_team : (t u : String) → Teams.member_row t u d ≢ none → Teams.get_team_by_id t d ≢ none
  pub member_user : (t u : String) → Teams.member_row t u d ≢ none → Users.has_user u d ≡ true
  pub member_role :
      (t u : String) (m : MemberRow) → Teams.member_row t u d ≡ some m → is_role m.role ≡ true
  pub team_creator :
      (t : String) (row : TeamRow)
      → Teams.get_team_by_id t d ≡ some row
      → Users.has_user row.created_by d ≡ true

add_step :
    (t u role : String) (d : Database) (a : Unit {0}) (d' : Database)
    → Teams.add_team_member t u role d ≡ some (a, d')
    → IsConsistent d
    → IsConsistent d'
unfolding Teams.add_team_member Teams.get_team_by_id Users.has_user
add_step t u role d a d' e h = record {
  member_team = λ t' u' p. ground (
    arith,
    Membership.member_row-add t u role t' u' d e,
    h.member_team t' u',
    exists-eq-find (Teams.is_team t) d.teams,
    eq_iff t t',
  );
  member_user = λ t' u' p.
      ground
        (arith, Membership.member_row-add t u role t' u' d e, h.member_user t' u', eq_iff u u');
  member_role = λ t' u' m p.
      ground (arith, Membership.member_row-add t u role t' u' d e, h.member_role t' u' m);
  team_creator = λ t' row p. ground (arith, h.team_creator t' row);
}

remove_step :
    (t u : String) (d : Database) (n : ℕ) (d' : Database)
    → Teams.remove_team_member t u d ≡ some (n, d')
    → IsConsistent d
    → IsConsistent d'
unfolding Teams.remove_team_member Teams.get_team_by_id Users.has_user
remove_step t u d n d' e h = record {
  member_team =
      λ t' u' p. ground (arith, Membership.member_row-remove t u t' u' d e, h.member_team t' u');
  member_user =
      λ t' u' p. ground (arith, Membership.member_row-remove t u t' u' d e, h.member_user t' u');
  member_role = λ t' u' m p.
      ground (arith, Membership.member_row-remove t u t' u' d e, h.member_role t' u' m);
  team_creator = λ t' row p. ground (arith, h.team_creator t' row);
}

create_step :
    (n c : String) (d : Database) (row : TeamRow) (d' : Database)
    → Teams.create_team n c d ≡ some (row, d')
    → IsConsistent d
    → IsConsistent d'
unfolding Teams.create_team Teams.member_row Users.has_user
create_step n c d row d' e h = record {
  member_team =
      λ t' u' p. ground (arith, Membership.get_team_by_id-create n c t' d e, h.member_team t' u');
  member_user = λ t' u' p. ground (arith, h.member_user t' u');
  member_role = λ t' u' m p. ground (arith, h.member_role t' u' m);
  team_creator = λ t' row' p.
      ground (arith, Membership.get_team_by_id-create n c t' d e, h.team_creator t' row');
}

insert_member-Keeps :
    (e : Error) (t u role : String) → Keeps IsConsistent (exec e (Teams.add_team_member t u role))
insert_member-Keeps e t u role = Keeps-exec e _ (add_step t u role)

delete_member-Keeps :
    (e : Error) (t u : String) → Keeps IsConsistent (exec e (Teams.remove_team_member t u))
delete_member-Keeps e t u = Keeps-exec e _ (remove_step t u)

insert_team-Keeps : (e : Error) (n c : String) → Keeps IsConsistent (exec e (Teams.create_team n c))
insert_team-Keeps e n c = Keeps-exec e _ (create_step n c)

if_removed-Keeps : (n : ℕ) → Keeps IsConsistent (Repository.if_removed n)
if_removed-Keeps zero = search keeps_rules
if_removed-Keeps (suc n) = search keeps_rules

ruleset query_rules =
    (keeps_rules, insert_member-Keeps, delete_member-Keeps, insert_team-Keeps, if_removed-Keeps)

refuse_member-Keeps : (r : Result Error String) → Keeps IsConsistent (refuse_member r)
refuse_member-Keeps (ok role) = search keeps_rules
refuse_member-Keeps (err no_rows) = search keeps_rules
refuse_member-Keeps (err e) = search keeps_rules

create_row-Keeps : (n c : String) → Keeps IsConsistent (Repository.create_with_manager n c)
unfolding Repository.create_with_manager
create_row-Keeps n c = Keeps-transaction _ (search query_rules depth 8)

add_member-Keeps : (t c u : String) → Keeps IsConsistent (add_member t c u)
unfolding add_member Repository.get_by_id Repository.get_member_role Repository.get_user_by_id
    Repository.add_member
add_member-Keeps t c u = search (query_rules, refuse_member-Keeps) depth 12

load_members-Keeps :
    (t : String) (o : Option (List TeamMember)) → Keeps IsConsistent (load_members t o)
unfolding Repository.list_members
load_members-Keeps t none = search query_rules depth 8
load_members-Keeps t (some ms) = search query_rules

serve-Keeps : (r : Request) → Keeps IsConsistent (serve r)
unfolding serve create_team remove_member promote_to_manager demote_from_manager get_members
    Repository.get_by_id Repository.get_member_role Repository.get_user_by_id Repository.add_member
    Repository.remove_member
serve-Keeps (create c n) = search (query_rules, create_row-Keeps) depth 12
serve-Keeps (add t c u) = add_member-Keeps t c u
serve-Keeps (remove t c u) = search query_rules depth 12
serve-Keeps (promote t c u) = search query_rules depth 12
serve-Keeps (demote t c u) = search query_rules depth 12
serve-Keeps (members t c) = search (query_rules, load_members-Keeps) depth 12

-- After any requests to the team service, whichever calls fail, every row of a member has its team,
-- its user and one of the two roles, and every team's creator is a user, if that held before.
pub run-IsConsistent :
    (rs : List Request) (w : World) → IsConsistent w.db → IsConsistent (run rs w).db
unfolding run
run-IsConsistent [] w h = h
run-IsConsistent (r ∷ rs) w h = run-IsConsistent rs (serve r w).1 ((serve-Keeps r).at w h)
