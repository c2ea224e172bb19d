-- ===== src/Core/Asset/Handler.antt =====
-- core-service/internal/asset/handler.go: the guards of each handler, and the answer to each error.
use seta_training.Prelude.{ℕ, String, Option, none, some, List, ◌||◌, ltb, if◌then◌else◌}
use seta_training.Core.World.{
  Error, asset_not_found, forbidden, invalid_type, target_user_not_found, parent_not_found,
  parent_not_folder, note_requires_parent, folder_content_not_allowed, Asset,
}
use seta_training.Core.Http.{
  Response, failure, success, paginated, empty, Caller, Handler, with_caller, with_body, respond,
}
use seta_training.Core.Asset

pub record CreateAssetRequest : Type 0 where
  pub parent_id : Option String
  pub type : String
  pub title : String
  pub content : Option String

pub record UpdateAssetRequest : Type 0 where
  pub title : String
  pub content : Option String

pub record ShareAssetRequest : Type 0 where
  pub user_id : String
  pub access_level : String

-- A parameter of the query, as `strconv.Atoi` reads it.
pub data Query : Type 0 where
  absent not_a_number negative : Query
  number : ℕ → Query

abbrev not_found : {A : Type 0} → String → Response A
not_found text = failure 404 "NOT_FOUND" text

abbrev unprocessable : {A : Type 0} → String → Response A
unprocessable text = failure 422 "UNPROCESSABLE_ENTITY" text

abbrev pub write_asset_err : {A : Type 0} → Error → Response A
write_asset_err asset_not_found = not_found "asset not found"
write_asset_err parent_not_found = not_found "parent asset not found"
write_asset_err forbidden = failure 403 "FORBIDDEN" "forbidden: insufficient permissions"
write_asset_err invalid_type = unprocessable "invalid asset type"
write_asset_err note_requires_parent = unprocessable "note asset requires a parent folder"
write_asset_err parent_not_folder = unprocessable "parent asset is not a folder"
write_asset_err folder_content_not_allowed = unprocessable "folder asset cannot have content"
write_asset_err target_user_not_found = unprocessable "target user not found"
write_asset_err e = failure 500 "INTERNAL_ERROR" "internal server error"

abbrev no_content : {A B : Type 0} → A → Response B
no_content _ = empty 204

abbrev bad_request : {A : Type 0} → String → Response A
bad_request text = failure 400 "BAD_REQUEST" text

-- `refusal` is the text of the error of `ShouldBindJSON`.
unfoldable pub create : Caller → (refusal : String) → Option CreateAssetRequest → Handler Asset
create caller refusal request = with_body request (bad_request refusal) (λ body.
    with_caller caller.id (λ caller_id.
      respond write_asset_err (success 201)
        (Asset.create caller_id body.parent_id body.type body.title body.content)))

unfoldable pub get_by_id : Caller → String → Handler Asset
get_by_id caller asset_id =
    with_caller caller.id
      (λ caller_id. respond write_asset_err (success 200) (Asset.get_by_id caller_id asset_id))

unfoldable pub update :
    Caller → String → (refusal : String) → Option UpdateAssetRequest → Handler Asset
update caller asset_id refusal request = with_body request (bad_request refusal) (λ body.
    with_caller caller.id (λ caller_id.
      respond write_asset_err (success 200)
        (Asset.update caller_id asset_id body.title body.content)))

unfoldable pub delete : Caller → String → Handler (Unit {0})
delete caller asset_id =
    with_caller caller.id
      (λ caller_id. respond write_asset_err no_content (Asset.delete caller_id asset_id))

unfoldable pub share :
    Caller → String → (refusal : String) → Option ShareAssetRequest → Handler (Unit {0})
share caller asset_id refusal request = with_caller caller.id (λ caller_id.
    with_body request (bad_request refusal) (λ body.
      respond write_asset_err no_content
        (Asset.share caller_id asset_id body.user_id body.access_level)))

unfoldable pub revoke_share : Caller → String → String → Handler (Unit {0})
revoke_share caller asset_id target_user_id = with_caller caller.id (λ caller_id.
    respond write_asset_err no_content (Asset.revoke_share caller_id asset_id target_user_id))

-- `limit` from 1 to 100, 20 if it is not given.
abbrev pub read_limit : Query → Option ℕ
read_limit absent = some 20
read_limit not_a_number = none
read_limit negative = none
read_limit (number n) = if ltb n 1 || ltb 100 n then none else some n

-- `page` from 1 on, 1 if it is not given.
abbrev pub read_page : Query → Option ℕ
read_page absent = some 1
read_page not_a_number = none
read_page negative = none
read_page (number n) = if ltb n 1 then none else some n

unfoldable pub list : Caller → Query → Query → Handler (List Asset)
list caller limit_str page_str = with_caller caller.id (λ caller_id.
    with_body (read_limit limit_str) (bad_request "limit must be between 1 and 100") (λ limit.
      with_body (read_page page_str) (bad_request "page must be >= 1") (λ page.
        respond write_asset_err (λ (assets, total). paginated assets total page limit "")
          (Asset.list caller_id page limit))))
