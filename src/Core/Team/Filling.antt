-- ===== src/Core/Team/Filling.antt =====
-- The read of a team's members that fills the cache.
use seta_training.Prelude.{
  String, true, false, List, ◌≡◌, ◌≢◌, ◌==◌, none, some, arith, eq_iff, find, upsert, ◌+◌, ◌⊎◌,
  Bool-cases, inl, inr, find-upsert_hit, find-upsert_miss,
}
use seta_training.Core.Db.{Database}
use seta_training.Core.Db.Teams
use seta_training.Core.World.{World, Entry, members_document, one, many, redis_get, redis_set}
use seta_training.Core.World.Keys.{team_members_key, team_members_key-==}
use seta_training.Core.Team.Repository
use seta_training.Core.Team.{get_members}
use seta_training.Core.Team.Access.{db-get_members}
use seta_training.Core.Team.Consistent.{IsConsistent}
use seta_training.Core.Team.Coherence.{listing, IsCoherent, same-IsCoherent}

-- The cache with the list of a team as of now.
abbrev pub stored : String → World → List Entry
stored t w =
    upsert (λ e. e.key == team_members_key t)
      (record {
        key = team_members_key t;
        document = members_document (listing t w.db);
        expires = w.db.now + 300;
      })
      w.redis

-- A list that is read from the database, for a member, may be written to the cache.
pub redis-get_members :
    (t c : String) (w : World)
    → ((get_members t c w).1.redis ≡ w.redis)
      ⊎ (((get_members t c w).1.redis ≡ stored t w) × (Teams.get_member_role t c w.db ≢ none))
unfolding get_members Repository.get_member_role Repository.list_members one many redis_get
    redis_set
redis-get_members t c w = ground arith

pub find-stored :
    (t t' : String) (w : World)
    → (t == t') ≡ false
    → find (λ e. e.key == team_members_key t') (stored t w)
      ≡ find (λ e. e.key == team_members_key t') w.redis
find-stored t t' w miss =
    find-upsert_miss (λ e. e.key == team_members_key t) (λ e. e.key == team_members_key t') _
      w.redis (ground (arith, team_members_key-== t t'))
      (λ x k. ground (arith, team_members_key-== t t', eq_iff x.key (team_members_key t)))

pub find-stored_self :
    (t t' : String) (w : World)
    → (t == t') ≡ true
    → find (λ e. e.key == team_members_key t') (stored t w)
      ≡ some (record {
        key = team_members_key t;
        document = members_document (listing t w.db);
        expires = w.db.now + 300;
      })
find-stored_self t t' w hit =
    find-upsert_hit (λ e. e.key == team_members_key t) (λ e. e.key == team_members_key t') _ w.redis
      (ground (arith, team_members_key-== t t')) (λ x. ground (arith, eq_iff t t'))

pub member_of_role :
    (t c : String) (d : Database)
    → IsConsistent d
    → Teams.get_member_role t c d ≢ none
    → Teams.get_team_by_id t d ≢ none
unfolding Teams.get_member_role
member_of_role t c d con h = con.member_team t c (ground arith)

pub stored-IsCoherent :
    (t : String) (w w' : World)
    → w'.db ≡ w.db
    → w'.redis ≡ stored t w
    → Teams.get_team_by_id t w.db ≢ none
    → IsCoherent w
    → IsCoherent w'
stored-IsCoherent t w w' same put team h = record {
  fresh = λ t' ms e. elim (Bool-cases (t == t')) [
    | inl hit ↦ ground (arith, find-stored_self t t' w hit, eq_iff t t')
    | inr miss ↦ ground (arith, find-stored t t' w miss, h.fresh t' ms)
  ];
  known = λ t' ms e. elim (Bool-cases (t == t')) [
    | inl hit ↦ ground (arith, eq_iff t t')
    | inr miss ↦ ground (arith, find-stored t t' w miss, h.known t' ms)
  ];
}

pub get_members-IsCoherent :
    (t c : String) (w : World) → IsConsistent w.db → IsCoherent w → IsCoherent (get_members t c w).1
get_members-IsCoherent t c w con h = elim (redis-get_members t c w) [
  | inl same ↦ same-IsCoherent w _ (db-get_members t c w) same h
  | inr put ↦
      stored-IsCoherent t w _ (db-get_members t c w) put.0 (member_of_role t c w.db con put.1) h
]
