-- ===== src/Core/Asset/Fresh/Requests.antt =====
-- All requests of the asset service, with the time that passes between them: the cache stays as the
-- database is, and a read then answers as the database does.
use seta_training.Prelude.{ℕ, ◌+◌, String, List, [], ◌∷◌, ◌≡◌, arith}
use seta_training.Core.Db.{Database}
use seta_training.Core.Db.Assets
use seta_training.Core.Db.Acl
use seta_training.Core.World.{World}
use seta_training.Core.World.Triple.{
  Triple, Preserves, Triple-bind, Triple-before, Triple-state, preserve_rules,
}
use seta_training.Core.Asset.Repository
use seta_training.Core.Asset.{get_by_id, list}
use seta_training.Core.Asset.Requests.{Request, serve}
use seta_training.Core.Asset.Requests.Request.{
  create, read, delete, update, share, revoke, list as listing,
}
use seta_training.Core.Asset.Fresh.{IsFresh, nothing, Fresh-many}
use seta_training.Core.Asset.Fresh.Reads.{Fresh-read}
use seta_training.Core.Asset.Fresh.Answers.{read_answer, get_by_id-answer}
use seta_training.Core.Asset.Fresh.Writes.{AllFresh, Fresh-create, Fresh-update}
use seta_training.Core.Asset.Fresh.Shares.{Fresh-share, Fresh-revoke}
use seta_training.Core.Asset.Fresh.Deletes.{IsFound, Fresh-delete}

-- The servers some seconds later.
abbrev pub wait : ℕ → World → World
wait n w = record w { db = record w.db { now = w.db.now + n } }

-- What a request asks of the tables: a deletion, that it finds all that lies below the asset.
abbrev pub IsCovered : Request → Database → Type 0
IsCovered (create c p ty ti co) d = Unit
IsCovered (read c a) d = Unit
IsCovered (delete c a) d = IsFound a d
IsCovered (update c a ti co) d = Unit
IsCovered (share c a u level) d = Unit
IsCovered (revoke c a u) d = Unit
IsCovered (listing c page limit) d = Unit

-- The servers after requests, each with the seconds that pass before it.
unfoldable pub run_at : List (ℕ × Request) → World → World
run_at [] w = w
run_at ((n, r) ∷ rs) w = run_at rs (serve r (wait n w)).1

abbrev pub AllCovered : List (ℕ × Request) → World → Type 0
AllCovered [] w = Unit
AllCovered ((n, r) ∷ rs) w = IsCovered r (wait n w).db × AllCovered rs (serve r (wait n w)).1

wait-IsFresh : (n : ℕ) (w : World) → AllFresh w → AllFresh (wait n w)
unfolding Assets.get_asset_by_id Acl.list_asset_acl
wait-IsFresh n w h = record {
  calls = h.calls;
  assets = λ b x t c. ground (arith, h.assets b x t);
  grants = λ b es t c. ground (arith, h.grants b es t);
}

Fresh-list : (c : String) (page limit : ℕ) → Preserves AllFresh (list c page limit)
unfolding list Repository.list Repository.count_by_owner
Fresh-list c page limit = search (preserve_rules, Fresh-many nothing nothing) depth 12

serve-IsFresh :
    (r : Request) → Triple (λ w. AllFresh w × IsCovered r w.db) (serve r) (λ _. AllFresh) AllFresh
unfolding serve
serve-IsFresh (create c p ty ti co) =
    Triple-bind _ _ _ _ _ _ (Triple-before (λ w h. h.0) (Fresh-create c p ty ti co))
      (λ _. record { at = λ w h. h })
serve-IsFresh (read c a) =
    Triple-bind _ _ _ _ _ _ (Triple-before (λ w h. h.0) (Fresh-read c a))
      (λ _. record { at = λ w h. h })
serve-IsFresh (delete c a) = Fresh-delete a c
serve-IsFresh (update c a ti co) =
    Triple-bind _ _ _ _ _ _ (Triple-before (λ w h. h.0) (Fresh-update c a ti co))
      (λ _. record { at = λ w h. h })
serve-IsFresh (share c a u level) = Triple-before (λ w h. h.0) (Fresh-share c a u level)
serve-IsFresh (revoke c a u) = Triple-before (λ w h. h.0) (Fresh-revoke c a u)
serve-IsFresh (listing c page limit) =
    Triple-bind _ _ _ _ _ _ (Triple-before (λ w h. h.0) (Fresh-list c page limit))
      (λ _. record { at = λ w h. h })

-- While no call fails, requests and the time between them keep the cache as the database is: what it
-- holds of an asset and of its grants, until that expires, is what the tables hold. Each deletion is of
-- an asset below which nothing lies but what the query of the descendants finds.
pub run_at-IsFresh :
    (rs : List (ℕ × Request)) (w : World)
    → IsFresh nothing nothing w
    → AllCovered rs w
    → IsFresh nothing nothing (run_at rs w)
unfolding run_at
run_at-IsFresh [] w h covered = h
run_at-IsFresh ((n, r) ∷ rs) w h covered =
    run_at-IsFresh rs (serve r (wait n w)).1
      (Triple-state AllFresh (serve r) (serve-IsFresh r) (wait n w) (wait-IsFresh n w h, covered.0))
      covered.1

-- After requests on servers whose cache is as the database is, no call failing and each deletion finding
-- all that lies below its asset, a read answers as the database alone would: the asset for its owner,
-- for a user with a grant and for a manager of a team of the owner, an error for all others.
pub read_after_run :
    (rs : List (ℕ × Request)) (c a : String) (w : World)
    → IsFresh nothing nothing w
    → AllCovered rs w
    → (get_by_id c a (run_at rs w)).0 ≡ read_answer c a (run_at rs w).db
read_after_run rs c a w h covered =
    get_by_id-answer c a (run_at rs w) (run_at-IsFresh rs w h covered)
