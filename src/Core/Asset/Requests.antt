-- ===== src/Core/Asset/Requests.antt =====
-- The requests of the asset service as data, each with the call that serves it.
use seta_training.Prelude.{ℕ, String, Option, List, [], ◌∷◌, pure, ◌>>◌}
use seta_training.Core.World.{World, Action}
use seta_training.Core.Asset

pub data Request : Type 0 where
  create :
      (caller_id : String) (parent_id : Option String) (asset_type title : String)
      (content : Option String)
      → Request
  read delete : (caller_id asset_id : String) → Request
  update : (caller_id asset_id title : String) (content : Option String) → Request
  share : (caller_id asset_id target_user_id access_level : String) → Request
  revoke : (caller_id asset_id target_user_id : String) → Request
  list : (caller_id : String) (page limit : ℕ) → Request

unfoldable pub serve : Request → Action (Unit {0})
serve (create c p ty ti co) = do Asset.create c p ty ti co; pure tt
serve (read c a) = do Asset.get_by_id c a; pure tt
serve (delete c a) = Asset.delete c a
serve (update c a ti co) = do Asset.update c a ti co; pure tt
serve (share c a u level) = Asset.share c a u level
serve (revoke c a u) = Asset.revoke_share c a u
serve (list c page limit) = do Asset.list c page limit; pure tt

-- The servers after some requests.
unfoldable pub run : List Request → World → World
run [] w = w
run (r ∷ rs) w = run rs (serve r w).1
