-- ===== src/Core/Team/Coherence.antt =====
-- Lists of members in the cache that are those in the database, and what dropping an entry keeps.
use seta_training.Prelude.{
  ℕ, String, true, false, not, List, map, ◌≡◌, ◌≢◌, ◌==◌, Option, none, some, Result, ok, err,
  is_ok, arith, eq_iff, if◌then◌else◌, find, Bool-cases, inl, inr, select-upsert_miss,
  select-select_keep, find-select_keep, find-select_drop, refl,
}
use seta_training.Core.Db.{Database}
use seta_training.Core.Db.Teams
use seta_training.Core.World.{Error, World, Entry, TeamMember, if_unexpired}
use seta_training.Core.World.Keys.{team_members_key, team_members_key-==}
use seta_training.Core.Team.Repository
use seta_training.Core.Team.{decode_members}
use seta_training.Core.Team.Effects.{dropped}

-- The list of a team's members in the database.
abbrev pub listing : String → Database → List TeamMember
listing t d = map Repository.to_member (Teams.get_team_members t d)

-- The list that a read of the cache finds.
abbrev pub cached_members : String → World → Option (List TeamMember)
cached_members t w =
    decode_members (if_unexpired w.db.now (find (λ e. e.key == team_members_key t) w.redis))

-- A request that changes the members of team `t` and succeeds leaves those of the others, and one
-- that fails leaves all.
abbrev pub Frame : String → Database → Database → Type 0
Frame t d d' =
    ((t' : String) → (t == t') ≡ false → listing t' d' ≡ listing t' d)
    × ((t' : String) → Teams.get_team_by_id t' d' ≡ Teams.get_team_by_id t' d)
    × (d'.now ≡ d.now)

pub add-Frame :
    (t u role : String) (d : Database) (d' : Database)
    → Teams.add_team_member t u role d ≡ some (tt, d')
    → Frame t d d'
unfolding Teams.add_team_member Teams.get_team_members Teams.get_team_by_id
add-Frame t u role d d' h = (
  λ t' ne. ground (
    arith,
    select-upsert_miss (Teams.is_member t u) (λ r. r.team_id == t')
        (record { team_id = t; user_id = u; role = role }) d.members ne
        (λ x k. ground (arith, eq_iff x.team_id t)),
  ),
  λ t'. ground arith,
  ground arith,
)

pub remove-Frame :
    (t u : String) (d : Database) (n : ℕ) (d' : Database)
    → Teams.remove_team_member t u d ≡ some (n, d')
    → Frame t d d'
unfolding Teams.remove_team_member Teams.get_team_members Teams.get_team_by_id
remove-Frame t u d n d' h = (
  λ t' ne. ground (
    arith,
    select-select_keep (λ r. not (Teams.is_member t u r)) (λ r. r.team_id == t') d.members
        (λ x k. ground (arith, eq_iff x.team_id t', eq_iff x.team_id t, eq_iff t t')),
  ),
  λ t'. ground arith,
  ground arith,
)

-- Every list that the cache holds is the one in the database, of a team that exists.
pub record IsCoherent (w : World) : Type 0 where
  pub fresh :
      (t : String) (ms : List TeamMember) → cached_members t w ≡ some ms → ms ≡ listing t w.db
  pub known :
      (t : String) (ms : List TeamMember)
      → cached_members t w ≡ some ms
      → Teams.get_team_by_id t w.db ≢ none

-- What the cache of one team finds after the entry of another, or its own, is dropped.
pub find-dropped :
    (t t' : String) (es : List Entry)
    → find (λ e. e.key == team_members_key t') (dropped t es)
      ≡ (if t == t' then none else find (λ e. e.key == team_members_key t') es)
find-dropped t t' es = elim (Bool-cases (t == t')) [
  | inl hit ↦ rw hit (
      find-select_drop (λ e. not (e.key == team_members_key t)) (λ e. e.key == team_members_key t')
        es (λ x h. ground (arith, eq_iff t t', h)))
  | inr miss ↦ rw miss (
      find-select_keep (λ e. not (e.key == team_members_key t)) (λ e. e.key == team_members_key t')
        es
        (λ x h. ground (
          arith,
          eq_iff x.key (team_members_key t),
          eq_iff x.key (team_members_key t'),
          team_members_key-== t t',
          eq_iff (team_members_key t) (team_members_key t'),
        )))
]

pub dropped-IsCoherent :
    (t : String) (w w' : World)
    → Frame t w.db w'.db
    → w'.redis ≡ dropped t w.redis
    → IsCoherent w
    → IsCoherent w'
dropped-IsCoherent t w w' frame drop h = record {
  fresh = λ t' ms e.
      ground (arith, find-dropped t t' w.redis, frame.0 t', frame.2, drop, h.fresh t' ms);
  known = λ t' ms e.
      ground (arith, find-dropped t t' w.redis, frame.1 t', frame.2, drop, h.known t' ms);
}

pub same-IsCoherent :
    (w w' : World) → w'.db ≡ w.db → w'.redis ≡ w.redis → IsCoherent w → IsCoherent w'
same-IsCoherent w w' d r h = record {
  fresh = λ t ms e. ground (arith, h.fresh t ms);
  known = λ t ms e. ground (arith, h.known t ms);
}

-- A call on the members of a team: what it does by its outcome.
pub changed-IsCoherent :
    (t : String) (w : World) (r : Result Error (Unit {0})) (w' : World)
    → (is_ok r ≡ true → Frame t w.db w'.db × (w'.redis ≡ dropped t w.redis))
    → (is_ok r ≡ false → (w'.db ≡ w.db) × (w'.redis ≡ w.redis))
    → IsCoherent w
    → IsCoherent w'
changed-IsCoherent t w (ok x) w' good bad h =
    dropped-IsCoherent t w w' (good refl).0 (good refl).1 h
changed-IsCoherent t w (err e) w' good bad h = same-IsCoherent w w' (bad refl).0 (bad refl).1 h
