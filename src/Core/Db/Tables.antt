-- ===== src/Core/Db/Tables.antt =====
-- The rows of core-service/internal/db/models.go. A nullable column is an `Option`; ids are the
-- texts that the program compares.
use seta_training.Prelude.{ℕ, String, Bool, Option, List, ◌==◌, ◌||◌}

pub record UserRow : Type 0 where
  pub user_id : String
  pub username : String
  pub email : String
  pub role : String
  pub deleted_at : Option ℕ
  pub updated_at : ℕ

pub record TeamRow : Type 0 where
  pub team_id : String
  pub team_name : String
  pub created_by : String
  pub updated_at : ℕ

pub record MemberRow : Type 0 where
  pub team_id : String
  pub user_id : String
  pub role : String

pub record AssetRow : Type 0 where
  pub asset_id : String
  pub owner_id : String
  pub parent_id : Option String
  pub type : String
  pub title : String
  pub content : Option String
  pub created_at : ℕ

pub record AclRow : Type 0 where
  pub asset_id : String
  pub user_id : String
  pub access_level : String

pub record AuditRow : Type 0 where
  pub event_id : String
  pub event_type : String
  -- a value of JSONB, by its canonical text
  pub payload : String
  pub received_at : ℕ

-- The tables, and what the server supplies: its clock, the order of its collation, and the results
-- of `gen_random_uuid()`, of which `issued` have been taken.
pub record Database : Type 0 where
  pub users : List UserRow
  pub teams : List TeamRow
  pub members : List MemberRow
  pub assets : List AssetRow
  pub acl : List AclRow
  pub audit : List AuditRow
  pub now : ℕ
  pub collation : String → String → Bool
  pub uuid : ℕ → String
  pub issued : ℕ

-- `CHECK (role IN ('manager', 'member'))`
unfoldable pub is_role : String → Bool
is_role r = r == "manager" || r == "member"
