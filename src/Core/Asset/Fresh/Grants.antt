-- ===== src/Core/Asset/Fresh/Grants.antt =====
-- The transaction of a share or of a revocation: the grants on an asset and on all that is below it.
use seta_training.Prelude.{
  String, Bool, true, false, ◌||◌, ◌&&◌, List, [], ◌∷◌, Option, some, ◌≡◌, ◌==◌, refl, Result, ok,
  err, arith, pure, Bool-cases, inl, inr, exists, eq_iff, ◌>>=◌, ◌>>◌,
}
use seta_training.Core.Db.{Database}
use seta_training.Core.Db.Assets
use seta_training.Core.Db.Assets.{contains}
use seta_training.Core.World.{Error, World, Entry, Action, exec, many, transaction, commit}
use seta_training.Core.World.Triple.{
  Triple, Preserves, Outcome, Triple-bind, Triple-before, Triple-weaken, Preserves-state,
  Preserves-bind, preserve_rules,
}
use seta_training.Core.World.Working.{
  transaction_works, commit_works, Quiet, Quiet-exec, Quiet-many,
}
use seta_training.Core.Asset.Repository.{for_each, cascade, type_folder}
use seta_training.Core.Asset.Fresh.{IsFresh, IsFresh-wider, Agrees, nothing, Fresh-many, Fresh-exec}
use seta_training.Core.Asset.Fresh.Writes.{AllFresh}

-- The assets whose grants a share of `a` changes: `a`, and the descendants of a folder.
abbrev pub shared_below : String → String → List String → String → Bool
shared_below a asset_type ids b =
    (asset_type == type_folder) && contains ids b || (a == b || nothing b)

commit-Fresh :
    {A : Type 0} (Q : A → World → Type 0) (w : World) (r : Result Error A) (v : World)
    → IsFresh nothing nothing w
    → Quiet w.redis v
    → Outcome Q (λ _. Unit {0}) (r, v)
    → Outcome Q AllFresh (commit w.db r v)
commit-Fresh Q w (ok a) v h quiet q = rw (commit_works v quiet.1 w.db a) q
commit-Fresh Q w (err e) v h quiet q = record {
  calls = quiet.1;
  assets = λ b x n c. ground (arith, quiet.0, h.assets b x n);
  grants = λ b es n c. ground (arith, quiet.0, h.grants b es n);
}

-- A transaction that fails leaves the tables as they were.
Fresh-transaction :
    {A : Type 0} (Q : A → World → Type 0) (m : Action A)
    → Triple AllFresh m Q (λ _. Unit {0})
    → ((r : List Entry) → Preserves (Quiet r) m)
    → Triple AllFresh (transaction m) Q AllFresh
Fresh-transaction Q m t quiet = record {
  at = λ w h. rw (transaction_works w h.calls m) (
      let (r, v) = m w in
      commit-Fresh Q w r v h (Preserves-state (Quiet w.redis) m (quiet w.redis) w (refl, h.calls))
        (t.at w h));
}

-- A statement on the grants of one asset.
module _ (e : Error) (f : String → Database → Option (Unit {0} × Database))
    (agrees : (s : String → Bool) (i : String) (out : (b : String) → s b ≡ false → (i == b) ≡ false)
        (d d' : Database)
      → f i d ≡ some (tt, d')
      → Agrees nothing s d d') where
  Fresh-grant :
      (s : String → Bool) (i : String) → s i ≡ true → Preserves (IsFresh nothing s) (exec e (f i))
  Fresh-grant s i within =
      Fresh-exec nothing s e (f i)
        (λ d z d' h. agrees s i (λ b n. ground (arith, within, eq_iff i b)) d d' h)

  Fresh-for_each :
      (s : String → Bool) (ids : List String)
      → ((b : String) → contains ids b ≡ true → s b ≡ true)
      → Preserves (IsFresh nothing s) (for_each (λ id. exec e (f id)) ids)
  unfolding for_each contains exists
  Fresh-for_each s [] within = record { at = λ w h. h }
  Fresh-for_each s (i ∷ ids) within =
      Preserves-bind (IsFresh nothing s) _ _
        (Fresh-grant s i (within i (ground (arith, eq_iff i i))))
        (λ _. Fresh-for_each s ids (λ b n. within b (ground arith)))

  Quiet-for_each :
      (r : List Entry) (ids : List String)
      → Preserves (Quiet r) (for_each (λ id. exec e (f id)) ids)
  unfolding for_each
  Quiet-for_each r [] = record { at = λ w h. h }
  Quiet-for_each r (i ∷ ids) =
      Preserves-bind (Quiet r) _ _ (Quiet-exec r e (f i)) (λ _. Quiet-for_each r ids)

  Quiet-cascade :
      (r : List Entry) (a ty : String) → Preserves (Quiet r) (cascade (λ id. exec e (f id)) a ty)
  unfolding cascade
  Quiet-cascade r a ty = search (preserve_rules, Quiet-many r, Quiet-for_each r) depth 10

  Fresh-descendants :
      (a : String)
      → Triple
          (IsFresh nothing (λ b. a == b || nothing b))
          (do
            ids ← many (Assets.get_descendant_ids a)
            for_each (λ id. exec e (f id)) ids
            pure ids)
          (λ ids. IsFresh nothing (λ b. contains ids b || (a == b || nothing b)))
          (λ _. Unit {0})
  Fresh-descendants a =
      Triple-bind _ _ _ _ _ _
        (Triple-weaken _ _ _ _ _ _ (λ ids w h. h) (λ w h. tt)
          (Fresh-many nothing (λ b. a == b || nothing b) (Assets.get_descendant_ids a)))
        (λ ids.
          Triple-bind _ _ _ _ _ _
            (Triple-weaken _ _ _ _ _ _ (λ z w h. h) (λ w h. tt)
              (Triple-before
                (λ w h.
                  IsFresh-wider _ _ nothing (λ b. contains ids b || (a == b || nothing b)) w
                    (λ b n. n) (λ b n. ground arith) h)
                (Fresh-for_each (λ b. contains ids b || (a == b || nothing b)) ids
                  (λ b n. ground arith))))
            (λ _. record { at = λ w h. h }))

  Fresh-first :
      (a : String)
      → Triple AllFresh
          (exec e (f a))
          (λ _. IsFresh nothing (λ b. a == b || nothing b))
          (λ _. Unit {0})
  Fresh-first a =
      Triple-weaken _ _ _ _ _ _ (λ z w h. h) (λ w h. tt)
        (Triple-before
          (λ w h. IsFresh-wider _ _ nothing (λ b. a == b || nothing b) w (λ b n. n) (λ b n. refl) h)
          (Fresh-grant (λ b. a == b || nothing b) a (ground (arith, eq_iff a a))))

  -- The statements of a share or of a revocation, all of them in one transaction.
  pub Fresh-cascade :
      (a ty : String)
      → Triple AllFresh
          (transaction (do exec e (f a); cascade (λ id. exec e (f id)) a ty))
          (λ ids. IsFresh nothing (shared_below a ty ids))
          AllFresh
  unfolding cascade
  Fresh-cascade a ty =
      Fresh-transaction _ _
        (Triple-bind _ _ _ _ _ _ (Fresh-first a) (λ _. elim (Bool-cases (ty == type_folder)) [
          | inl is_folder ↦ rw is_folder (
              Triple-weaken _ _ _ _ _ _
                (λ ids w h.
                  IsFresh-wider _ _ nothing (shared_below a ty ids) w (λ b n. n)
                    (λ b n. ground (arith, is_folder)) h)
                (λ w h. h) (Fresh-descendants a))
          | inr is_note ↦ rw is_note (record {
            at = λ w h.
                IsFresh-wider _ _ nothing (shared_below a ty []) w (λ b n. n)
                  (λ b n. ground (arith, is_note)) h;
          })
        ]))
        (λ r. Preserves-bind (Quiet r) _ _ (Quiet-exec r e (f a)) (λ _. Quiet-cascade r a ty))
