-- ===== src/Auth/Import/Progress.antt =====
-- The pool of an import does not hang, and takes a bounded number of steps.
use seta_training.Prelude.{
  ℕ, zero, suc, ◌+◌, ◌*◌, ◌<◌, ◌≤◌, Bool, true, false, ◌⊎◌, List, [], ◌∷◌, ◌++◌, ◌≡◌, refl, inl,
  inr, arith, ap, length, Bool-cases, List-cases,
}
use seta_training.Auth.Libraries.{Bcrypt}
use seta_training.Auth.Import.{
  Worker, idle, stopped, holding, PoolState, Step, take, skip, handle, leave, is_stopped,
  is_finished, Reach, here, next, cancel, elsewhere, start, idle_workers,
}
use seta_training.Auth.Import.Csv.{CsvRow}
use seta_training.Auth.World.{World}

-- What is still to be done: a row in the channel is to be taken and handled, and a worker is to go.
abbrev effort_of : Worker → ℕ
effort_of idle = 1
effort_of (holding row) = 2
effort_of stopped = 0

abbrev effort_of_all : List Worker → ℕ
effort_of_all [] = 0
effort_of_all (w ∷ ws) = effort_of w + effort_of_all ws

abbrev pub effort : PoolState → ℕ
effort p = 2 * length p.jobs + effort_of_all p.workers

effort-set :
    (pre : List Worker) (v u : Worker) (post : List Worker)
    → effort_of_all (pre ++ u ∷ post) + effort_of v ≡ effort_of_all (pre ++ v ∷ post) + effort_of u
effort-set [] v u post = omega arith
effort-set (w ∷ pre) v u post = omega (arith, effort-set pre v u post)

-- Where a pool that has not finished has a worker that is not gone.
working :
    (ws : List Worker)
    → is_finished ws ≡ false
    → (pre post : List Worker) × (v : Worker) × (ws ≡ pre ++ v ∷ post) × (is_stopped v ≡ false)
unfolding is_finished
working [] h = absurd (ground arith)
working (idle ∷ ws) h = ([], ws, idle, refl, refl)
working (holding row ∷ ws) h = ([], ws, holding row, refl, refl)
working (stopped ∷ ws) h =
    let (pre, post, v, is, at_work) = working ws h in
    (stopped ∷ pre, post, v, ap (λ l. stopped ∷ l) is, at_work)

-- Every step of a worker leaves less to be done, so that there are at most `effort` steps.
pub effort-step : {b : Bcrypt} {p q : PoolState} → Step b p q → effort q < effort p
effort-step (take pre post row rest ws js) =
    omega (arith, effort-set pre idle (holding row) post, ap effort_of_all ws, ap length js)
effort-step (skip pre post row ws c) =
    omega (arith, effort-set pre (holding row) stopped post, ap effort_of_all ws)
effort-step (handle pre post row ws c) =
    omega (arith, effort-set pre (holding row) idle post, ap effort_of_all ws)
effort-step (leave pre post ws js) =
    omega (arith, effort-set pre idle stopped post, ap effort_of_all ws)

step_of :
    (b : Bcrypt) (p : PoolState) (pre post : List Worker) (v : Worker)
    → p.workers ≡ pre ++ v ∷ post
    → is_stopped v ≡ false
    → (q : PoolState) × Step b p q
step_of b p pre post stopped ws at_work = absurd (ground arith)
step_of b p pre post idle ws at_work = elim (List-cases p.jobs) [
  | inl none_left ↦ (_, leave pre post ws none_left)
  | inr (row, rest, some_left) ↦ (_, take pre post row rest ws some_left)
]
step_of b p pre post (holding row) ws at_work = elim (Bool-cases p.is_cancelled) [
  | inl c ↦ (_, skip pre post row ws c)
  | inr live ↦ (_, handle pre post row ws live)
]

-- The steps of the workers in a run, in which the context may be done and the servers may change.
abbrev pub steps : {b : Bcrypt} {p q : PoolState} → Reach b p q → ℕ
steps here = 0
steps (next r s) = steps r + 1
steps (cancel r) = steps r
steps (elsewhere w r) = steps r

steps_bounded : {b : Bcrypt} {p q : PoolState} (r : Reach b p q) → steps r + effort q ≤ effort p
steps_bounded here = omega arith
steps_bounded (next r s) = omega (arith, steps_bounded r, effort-step s)
steps_bounded (cancel r) = steps_bounded r
steps_bounded (elsewhere w r) = steps_bounded r

-- Every run of a pool, in whatever order the workers go and whatever the servers and the context do,
-- has taken no more steps of the workers than the effort that it has spent, so that none goes on for
-- ever; and its workers are all gone, or one of them can go on.
pub run_is_bounded :
    (b : Bcrypt) (p q : PoolState) (r : Reach b p q)
    → (steps r + effort q ≤ effort p)
      × ((is_finished q.workers ≡ true) ⊎ ((z : PoolState) × Step b q z))
run_is_bounded b p q r = (
  steps_bounded r,
  elim (Bool-cases (is_finished q.workers)) [
    | inl over ↦ inl over
    | inr at_work ↦
        let (pre, post, v, ws, still) = working q.workers at_work in
        inr (step_of b q pre post v ws still)
  ],
)

effort_of_idle : (n : ℕ) → effort_of_all (idle_workers n) ≡ n
unfolding idle_workers
effort_of_idle zero = refl
effort_of_idle (suc n) = omega (arith, effort_of_idle n)

-- What is to be done at first: two steps for each row and one for each worker.
pub effort-start :
    (rs : List CsvRow) (size : ℕ) (is_cancelled : Bool) (w : World)
    → effort (start rs size is_cancelled w) ≡ 2 * length rs + size
unfolding start
effort-start rs size is_cancelled w = omega (arith, effort_of_idle size)
