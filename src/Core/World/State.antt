-- ===== src/Core/World/State.antt =====
-- The state of core-service's servers, and its Go errors.
use seta_training.Prelude.{ℕ, String, Bool, List, Option, Result, ok, err, Exec}
use seta_training.Core.Db.{Database}

pub data Error : Type 0 where
  -- pgx: no row; no connection; a broken constraint; a negative `LIMIT` or `OFFSET`
  no_rows unavailable violation negative_bound : Error
  -- core-service/internal/team/model.go
  not_team_manager not_team_creator cannot_demote_creator team_not_found : Error
  user_not_found not_team_member already_member : Error
  -- core-service/internal/asset/model.go
  asset_not_found forbidden invalid_type target_user_not_found : Error
  parent_not_found parent_not_folder note_requires_parent folder_content_not_allowed : Error

-- core-service/internal/asset/model.go
pub record Asset : Type 0 where
  pub asset_id : String
  pub owner_id : String
  pub parent_id : Option String
  pub type : String
  pub title : String
  pub content : Option String
  pub created_at : ℕ

pub record AssetAcl : Type 0 where
  pub asset_id : String
  pub user_id : String
  pub access_level : String

-- core-service/internal/team/model.go
pub record TeamMember : Type 0 where
  pub user_id : String
  pub role : String
  pub user_name : String
  pub email : String

-- The JSON documents that the service stores, by the value that they decode to, and any other text.
pub data Document : Type 0 where
  asset_document : Asset → Document
  acl_document : List AssetAcl → Document
  members_document : List TeamMember → Document
  other_document : String → Document

-- A key of Redis with its value and the time from which it is gone.
pub record Entry : Type 0 where
  pub key : String
  pub document : Document
  pub expires : ℕ

-- The payloads of core-service's Kafka messages.
pub data Event : Type 0 where
  team_event : (event team_id user_id : String) → Event
  asset_event : (event asset_id owner_id : String) (timestamp : ℕ) → Event

pub record Message : Type 0 where
  pub topic : String
  pub payload : Event

pub record World : Type 0 where
  pub db : Database
  pub redis : List Entry
  -- the newest first
  pub messages : List Message
  -- whether each call to come fails
  pub outages : List Bool

abbrev pub Action : Type 0 → Type 0
Action A = Exec World Error A

-- `if errors.Is(err, pgx.ErrNoRows) { return e }`, and any other error as it is.
abbrev pub renamed : {A : Type 0} → Error → Result Error A → Result Error A
renamed e (ok a) = ok a
renamed e (err no_rows) = err e
renamed e (err other) = err other

abbrev pub or_missing : {A : Type 0} → Error → Action A → Action A
or_missing e m w = let (r, w') = m w in (renamed e r, w')
