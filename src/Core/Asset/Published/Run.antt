-- ===== src/Core/Asset/Published/Run.antt =====
-- What a request publishes, and what many of them do.
use seta_training.Prelude.{
  ℕ, String, List, [], ◌∷◌, ◌++◌, ◌≡◌, refl, ◌==◌, arith, Result, ok, err, pure, continue, ◌∙◌, ap,
  sym,
}
use seta_training.Core.World.{Error, World, Message, Asset}
use seta_training.Core.World.Triple.{Outcome, Preserves-state}
use seta_training.Core.Asset.Repository.{type_note, type_folder}
use seta_training.Core.Asset
use seta_training.Core.Asset.Requests.{Request, serve, run}
use seta_training.Core.Asset.Requests.Request.{create, read, delete, update, share, revoke, list}
use seta_training.Core.Asset.Fresh.{asset_of}
use seta_training.Core.Asset.Published.{change, sent_if, Sent}
use seta_training.Core.Asset.Published.Requests.{of_type, Sent-create, Sent-update, Sent-delete}
use seta_training.Core.Asset.Published.Shares.{Sent-share, Sent-revoke, Sent-read, Sent-list}

-- The message of a creation, with the id that the database has given the note.
abbrev pub created : String → ℕ → Result Error Asset → List Message
created ty n (ok x) = sent_if (ty == type_note) (change "NOTE_CREATED" x.asset_id x.owner_id n)
created ty n (err e) = []

abbrev pub if_done : {A : Type 0} → Result Error A → List Message → List Message
if_done (ok a) l = l
if_done (err e) l = []

-- The messages that a request is to send: one for a note that is created or updated, and for a folder
-- that is deleted or shared, with the owner of the asset, if the request succeeds.
abbrev pub announced : Request → World → List Message
announced (create c p ty ti co) w = created ty w.db.now (Asset.create c p ty ti co w).0
announced (read c a) w = []
announced (delete c a) w =
    if_done (Asset.delete c a w).0
      (of_type type_folder "FOLDER_DELETED" a w.db.now (asset_of a w.db))
announced (update c a ti co) w =
    if_done (Asset.update c a ti co w).0
      (of_type type_note "NOTE_UPDATED" a w.db.now (asset_of a w.db))
announced (share c a u level) w =
    if_done (Asset.share c a u level w).0
      (of_type type_folder "FOLDER_SHARED" a w.db.now (asset_of a w.db))
announced (revoke c a u) w = []
announced (list c page limit) w = []

-- All that some requests send, the newest first.
unfoldable pub announced_by : List Request → World → List Message
announced_by [] w = []
announced_by (r ∷ rs) w = announced_by rs (serve r w).1 ++ announced r w

module _ (ms : List Message) (n : ℕ) where
  Sent-Outcome :
      {A : Type 0} (l : List Message) (r : Result Error A) (v : World)
      → Outcome (λ (a : A). Sent (l ++ ms) n) (Sent ms n) (r, v)
      → Sent (if_done r l ++ ms) n v
  Sent-Outcome l (ok a) v h = h
  Sent-Outcome l (err e) v h = h

  Sent-created :
      (ty : String) (r : Result Error Asset) (v : World)
      → Outcome (λ x. Sent (created ty n (ok x) ++ ms) n) (Sent ms n) (r, v)
      → Sent (created ty n r ++ ms) n v
  Sent-created ty (ok a) v h = h
  Sent-created ty (err e) v h = h

after_pure :
    {A : Type 0} (P : World → Type 0) (r : Result Error A) (v : World)
    → P v
    → P (continue r (λ _. pure tt) v).1
after_pure P (ok a) v h = h
after_pure P (err e) v h = h

-- A request sends what it is to send, and nothing else, while no call fails.
pub serve-announced :
    (r : Request) (w : World)
    → w.outages ≡ []
    → Sent (announced r w ++ w.messages) w.db.now (serve r w).1
unfolding serve
serve-announced (create c p ty ti co) w up =
    let (r, v) = Asset.create c p ty ti co w in
    after_pure (Sent (created ty w.db.now r ++ w.messages) w.db.now) r v (
      Sent-created w.messages w.db.now ty r v
        ((Sent-create w.messages w.db.now c p ty ti co).at w (refl, up, refl)))
serve-announced (read c a) w up =
    let (r, v) = Asset.get_by_id c a w in
    after_pure (Sent w.messages w.db.now) r v (
      Preserves-state (Sent w.messages w.db.now) _ (Sent-read w.messages w.db.now c a) w
        (refl, up, refl))
serve-announced (delete c a) w up =
    let (r, v) = Asset.delete c a w in
    Sent-Outcome w.messages w.db.now _ r v
      ((Sent-delete w.messages w.db.now c a (asset_of a w.db)).at w ((refl, up, refl), refl))
serve-announced (update c a ti co) w up =
    let (r, v) = Asset.update c a ti co w in
    after_pure
      (Sent
        (if_done r (of_type type_note "NOTE_UPDATED" a w.db.now (asset_of a w.db)) ++ w.messages)
        w.db.now)
      r v
      (Sent-Outcome w.messages w.db.now _ r v (
        (Sent-update w.messages w.db.now c a ti co (asset_of a w.db)).at w
          ((refl, up, refl), refl)))
serve-announced (share c a u level) w up =
    let (r, v) = Asset.share c a u level w in
    Sent-Outcome w.messages w.db.now _ r v
      ((Sent-share w.messages w.db.now c a u level (asset_of a w.db)).at w ((refl, up, refl), refl))
serve-announced (revoke c a u) w up =
    Preserves-state (Sent w.messages w.db.now) _ (Sent-revoke w.messages w.db.now c a u) w
      (refl, up, refl)
serve-announced (list c page limit) w up =
    let (r, v) = Asset.list c page limit w in
    after_pure (Sent w.messages w.db.now) r v (
      Preserves-state (Sent w.messages w.db.now) _ (Sent-list w.messages w.db.now c page limit) w
        (refl, up, refl))

append_assoc : (xs ys zs : List Message) → (xs ++ ys) ++ zs ≡ xs ++ (ys ++ zs)
append_assoc [] ys zs = refl
append_assoc (x ∷ xs) ys zs = ground (arith, append_assoc xs ys zs)

-- While no call fails, requests send what each of them is to send, in their order, and nothing else:
-- a message for each note that is created or updated, and for each folder that is deleted or shared,
-- with the owner of the asset, and none for a folder that is created or updated, a note that is deleted
-- or shared, a revocation, a read or a request that is refused.
pub run-announced :
    (rs : List Request) (w : World)
    → w.outages ≡ []
    → (run rs w).messages ≡ announced_by rs w ++ w.messages
unfolding run announced_by
run-announced [] w up = refl
run-announced (r ∷ rs) w up =
    let (sent, still_up, same_time) = serve-announced r w up in
    run-announced rs (serve r w).1 still_up
    ∙ ap (λ ms. announced_by rs (serve r w).1 ++ ms) sent
    ∙ sym (append_assoc (announced_by rs (serve r w).1) (announced r w) w.messages)

pub append_nil : (xs : List Message) → xs ++ [] ≡ xs
append_nil [] = refl
append_nil (x ∷ xs) = ground (arith, append_nil xs)

-- The outages stay none.
pub run_outages : (rs : List Request) (w : World) → w.outages ≡ [] → (run rs w).outages ≡ []
unfolding run
run_outages [] w up = up
run_outages (r ∷ rs) w up = run_outages rs (serve r w).1 (serve-announced r w up).1
