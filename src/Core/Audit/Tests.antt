-- ===== src/Core/Audit/Tests.antt =====
-- The audit log after a share of a folder.
use Prim.Native.String.count
use Prim.Native.String.{count, ◌∷◌ as cons}
use seta_training.Prelude.{
  ℕ, zero, suc, ◌<◌, String, false, List, [], ◌∷◌, ◌++◌, map, some, ◌≡◌, ◌==◌, refl, ap, ◌∙◌, arith,
  eq_iff, is_down, later, find, exists, upsert, select, Bool-cases, inl, inr,
}
use seta_training.Core.Db.{Database}
use seta_training.Core.Db.Users
use seta_training.Core.Db.Assets
use seta_training.Core.Db.Acl
use seta_training.Core.World.{one, many, exec, transaction, publish, redis_del}
use seta_training.Core.Asset
use seta_training.Core.Asset.Repository
use seta_training.Core.Asset.Requests.{Request, share, serve, run}
use seta_training.Core.Asset.Published.Run.{announced_by, run-announced}
use seta_training.Core.Audit.Trail.{MakesNewIds, event_of, said}
use seta_training.Core.Audit.Changes.{audited, rows_for, audited_changes}
use seta_training.Core.Samples.{filled, servers}

-- A text of `n` letters.
abbrev letters : ℕ → String
letters zero = ""
letters (suc n) = cons "a" (letters n)

count-letters : (n : ℕ) → count (letters n) ≡ n
count-letters zero = refl
count-letters (suc n) = count.cons "a" (letters n) ∙ ap suc (count-letters n)

letters_distinct : (m n : ℕ) → m < n → (letters m == letters n) ≡ false
letters_distinct m n lt = elim (Bool-cases (letters m == letters n)) [
  | inr differ ↦ differ
  | inl same ↦
      let lengths = ap count ((eq_iff (letters m) (letters n)).0 same) in
      absurd (omega (arith, lengths, count-letters m, count-letters n))
]

abbrev lettered : Database
lettered = record filled { uuid = letters }

abbrev history : List Request
history = share "ann" "folder" "bob" "read" ∷ []

history-MakesNewIds : MakesNewIds (run history (servers lettered [])).db
unfolding serve run Asset.share Asset.check_share Asset.after_share Asset.evict_acls
    Asset.publish_event Repository.get_by_id Repository.user_exists
    Repository.upsert_acl_with_cascade Repository.cascade Repository.for_each one many exec
    transaction publish redis_del is_down later find exists upsert select Assets.get_asset_by_id
    Assets.get_descendant_ids Assets.levels Assets.child_ids Assets.contains Acl.upsert_asset_acl
    Acl.get_asset_acl Users.get_user_projection_by_id Users.has_user
history-MakesNewIds = record { distinct = letters_distinct; unused = λ n later_on. refl }

run-announced_example :
    (run history (servers lettered [])).messages ≡ announced_by history (servers lettered []) ++ []
run-announced_example = run-announced history (servers lettered []) refl

audited_changes_example :
    map said (audited some some event_of (run history (servers lettered []))).db.audit
    ≡ map said (run history (servers lettered [])).db.audit
      ++ rows_for event_of (announced_by history (servers lettered []))
audited_changes_example =
    audited_changes some some event_of event_of history (servers lettered []) (λ e. refl)
      (λ e. refl) refl refl history-MakesNewIds
