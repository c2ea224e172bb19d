-- ===== src/Core/World/Redis.antt =====
-- What Redis holds under one key after an entry under another, or the same, is dropped or written.
use seta_training.Prelude.{
  ℕ, String, not, List, ◌==◌, ◌≡◌, none, some, arith, eq_iff, find, select, upsert, if◌then◌else◌,
  find-select_keep, find-select_drop, find-upsert_hit, find-upsert_miss, Bool-cases, inl, inr,
}
use seta_training.Core.World.State.{Document, Entry}

pub find-dropped :
    (i k : String) (es : List Entry)
    → find (λ e. e.key == k) (select (λ e. not (e.key == i)) es)
      ≡ (if i == k then none else find (λ e. e.key == k) es)
find-dropped i k es = elim (Bool-cases (i == k)) [
  | inl hit ↦ rw hit (
      find-select_drop (λ e. not (e.key == i)) (λ e. e.key == k) es
        (λ x h. ground (arith, eq_iff i k, h)))
  | inr miss ↦ rw miss (
      find-select_keep (λ e. not (e.key == i)) (λ e. e.key == k) es
        (λ x h. ground (arith, eq_iff x.key i, eq_iff x.key k, eq_iff i k)))
]

pub find-put :
    (i k : String) (v : Document) (n : ℕ) (es : List Entry)
    → find
        (λ x. x.key == k)
        (upsert (λ x. x.key == i) (record { key = i; document = v; expires = n }) es)
      ≡ (if i == k
          then some (record { key = i; document = v; expires = n })
          else find (λ x. x.key == k) es)
find-put i k v n es = elim (Bool-cases (i == k)) [
  | inl hit ↦ rw hit (
      find-upsert_hit (λ x. x.key == i) (λ x. x.key == k) _ es hit
        (λ x. ground (arith, eq_iff i k)))
  | inr miss ↦ rw miss (
      find-upsert_miss (λ x. x.key == i) (λ x. x.key == k) _ es miss
        (λ x h. ground (arith, eq_iff x.key i, eq_iff i k)))
]
