-- ===== src/Auth/Import/Pool.antt =====
-- The workers of an import: no row is lost or handled twice, and the pool does not hang.
use seta_training.Prelude.{
  ℕ, zero, suc, ◌+◌, ◌<◌, Bool, true, false, some, List, [], ◌∷◌, ◌++◌, ◌≡◌, ◌⊎◌, refl, sym, ◌∙◌,
  inl, inr, arith, ap, length, exists,
}
use seta_training.Auth.Libraries.{Bcrypt}
use seta_training.Auth.World.{World}
use seta_training.Auth.Import.Csv.{CsvRow}
use seta_training.Auth.Import
use seta_training.Auth.Import.{
  RowResult, Worker, idle, stopped, holding, PoolState, Step, take, skip, handle, leave, Reach,
  here, next, cancel, elsewhere, is_stopped, is_finished, start, idle_workers, count_result,
  collect, summary, ImportResult,
}

-- A sum over the rows of a channel, by their lines.
abbrev pub weigh_rows : (ℕ → ℕ) → List CsvRow → ℕ
weigh_rows f [] = 0
weigh_rows f (r ∷ rs) = f r.line_no + weigh_rows f rs

abbrev pub weigh_results : (ℕ → ℕ) → List RowResult → ℕ
weigh_results f [] = 0
weigh_results f (r ∷ rs) = f r.line_no + weigh_results f rs

abbrev weigh_worker : (ℕ → ℕ) → Worker → ℕ
weigh_worker f idle = 0
weigh_worker f stopped = 0
weigh_worker f (holding row) = f row.line_no

abbrev weigh_workers : (ℕ → ℕ) → List Worker → ℕ
weigh_workers f [] = 0
weigh_workers f (w ∷ ws) = weigh_worker f w + weigh_workers f ws

weigh_workers-append :
    (f : ℕ → ℕ) (ws vs : List Worker)
    → weigh_workers f (ws ++ vs) ≡ weigh_workers f ws + weigh_workers f vs
weigh_workers-append f [] vs = omega arith
weigh_workers-append f (w ∷ ws) vs = omega (arith, weigh_workers-append f ws vs)

weigh_results-append :
    (f : ℕ → ℕ) (rs qs : List RowResult)
    → weigh_results f (rs ++ qs) ≡ weigh_results f rs + weigh_results f qs
weigh_results-append f [] qs = omega arith
weigh_results-append f (r ∷ rs) qs = omega (arith, weigh_results-append f rs qs)

weigh_idle : (f : ℕ → ℕ) (n : ℕ) → weigh_workers f (idle_workers n) ≡ 0
unfolding idle_workers
weigh_idle f zero = refl
weigh_idle f (suc n) = omega (arith, weigh_idle f n)

-- A worker that stands at one place of the pool becomes another.
weigh_set :
    (f : ℕ → ℕ) (pre : List Worker) (v : Worker) (post : List Worker)
    → weigh_workers f (pre ++ v ∷ post)
      ≡ weigh_workers f pre + weigh_worker f v + weigh_workers f post
weigh_set f pre v post = omega (arith, weigh_workers-append f pre (v ∷ post))

-- Rows in the channel, with workers and among the results.
abbrev weigh : (ℕ → ℕ) → PoolState → ℕ
weigh f p = weigh_rows f p.jobs + weigh_workers f p.workers + weigh_results f p.results

weigh-step : {b : Bcrypt} (f : ℕ → ℕ) {p q : PoolState} → Step b p q → weigh f q ≡ weigh f p
weigh-step f {p} (take pre post row rest ws js) = omega (
  arith,
  weigh_set f pre idle post,
  weigh_set f pre (holding row) post,
  ap (weigh_workers f) ws,
  ap (weigh_rows f) js,
)
weigh-step f {p} (skip pre post row ws c) = omega (
  arith,
  weigh_set f pre stopped post,
  weigh_set f pre (holding row) post,
  ap (weigh_workers f) ws,
  weigh_results-append f p.results
      (record { line_no = row.line_no; error = some Import.cancelled } ∷ []),
)
weigh-step {b} f {p} (handle pre post row ws c) = omega (
  arith,
  weigh_set f pre idle post,
  weigh_set f pre (holding row) post,
  ap (weigh_workers f) ws,
  weigh_results-append f p.results
      (Import.result_of row (Import.register_row b row p.world).0 ∷ []),
)
weigh-step f {p} (leave pre post ws js) =
    omega (arith, weigh_set f pre idle post, weigh_set f pre stopped post, ap (weigh_workers f) ws)

weigh-Reach : {b : Bcrypt} (f : ℕ → ℕ) {p q : PoolState} → Reach b p q → weigh f q ≡ weigh f p
weigh-Reach f here = refl
weigh-Reach f (next r st) = omega (arith, weigh-step f st, weigh-Reach f r)
weigh-Reach f (cancel r) = weigh-Reach f r
weigh-Reach f (elsewhere w r) = weigh-Reach f r

weigh_finished : (f : ℕ → ℕ) (ws : List Worker) → is_finished ws ≡ true → weigh_workers f ws ≡ 0
unfolding is_finished
weigh_finished f [] h = refl
weigh_finished f (idle ∷ ws) h = absurd (ground arith)
weigh_finished f (holding row ∷ ws) h = absurd (ground arith)
weigh_finished f (stopped ∷ ws) h = omega (arith, weigh_finished f ws h)

-- When the pool has finished, whatever the order of its steps, the results and the rows that are left
-- in the channel are together the rows of the file: each line as often.
pub finished_results :
    (b : Bcrypt) (f : ℕ → ℕ) (rows : List CsvRow) (size : ℕ) (c : Bool) (w : World) (q : PoolState)
    → Reach b (start rows size c w) q
    → is_finished q.workers ≡ true
    → weigh_results f q.results + weigh_rows f q.jobs ≡ weigh_rows f rows
unfolding start
finished_results b f rows size c w q reach done =
    omega (arith, weigh-Reach f reach, weigh_finished f q.workers done, weigh_idle f size)

-- A worker goes only if the context is done or there are no more rows.
abbrev GoneForCause : PoolState → Type 0
GoneForCause p = (exists is_stopped p.workers ≡ false) ⊎ ((p.is_cancelled ≡ true) ⊎ (p.jobs ≡ []))

exists_set :
    (pre : List Worker) (v u : Worker) (post : List Worker)
    → is_stopped u ≡ is_stopped v
    → exists is_stopped (pre ++ u ∷ post) ≡ exists is_stopped (pre ++ v ∷ post)
unfolding exists
exists_set [] v u post h = ground (arith, h)
exists_set (w ∷ pre) v u post h = ground (arith, exists_set pre v u post h)

GoneForCause-step : {b : Bcrypt} {p q : PoolState} → Step b p q → GoneForCause p → GoneForCause q
GoneForCause-step (take pre post row rest ws js) (inl stay) =
    inl (exists_set pre idle (holding row) post refl ∙ sym (ap (exists is_stopped) ws) ∙ stay)
GoneForCause-step (take pre post row rest ws js) (inr (inl c)) = inr (inl c)
GoneForCause-step (take pre post row rest ws js) (inr (inr none_left)) = absurd (cc (js, none_left))
GoneForCause-step (skip pre post row ws c) g = inr (inl c)
GoneForCause-step (handle pre post row ws c) (inl stay) =
    inl (exists_set pre (holding row) idle post refl ∙ sym (ap (exists is_stopped) ws) ∙ stay)
GoneForCause-step (handle pre post row ws c) (inr g) = inr g
GoneForCause-step (leave pre post ws js) g = inr (inr js)

GoneForCause-Reach : {b : Bcrypt} {p q : PoolState} → Reach b p q → GoneForCause p → GoneForCause q
GoneForCause-Reach here g = g
GoneForCause-Reach (next r st) g = GoneForCause-step st (GoneForCause-Reach r g)
GoneForCause-Reach (cancel r) g = inr (inl refl)
GoneForCause-Reach (elsewhere w r) g = GoneForCause-Reach r g

-- The number of workers stays.
length-set :
    (pre : List Worker) (v u : Worker) (post : List Worker)
    → length (pre ++ u ∷ post) ≡ length (pre ++ v ∷ post)
length-set [] v u post = refl
length-set (w ∷ pre) v u post = ap suc (length-set pre v u post)

length-step : {b : Bcrypt} {p q : PoolState} → Step b p q → length q.workers ≡ length p.workers
length-step (take pre post row rest ws js) =
    length-set pre idle (holding row) post ∙ sym (ap length ws)
length-step (skip pre post row ws c) =
    length-set pre (holding row) stopped post ∙ sym (ap length ws)
length-step (handle pre post row ws c) = length-set pre (holding row) idle post ∙ sym (ap length ws)
length-step (leave pre post ws js) = length-set pre idle stopped post ∙ sym (ap length ws)

length-Reach : {b : Bcrypt} {p q : PoolState} → Reach b p q → length q.workers ≡ length p.workers
length-Reach here = refl
length-Reach (next r st) = length-step st ∙ length-Reach r
length-Reach (cancel r) = length-Reach r
length-Reach (elsewhere w r) = length-Reach r

length-idle : (n : ℕ) → length (idle_workers n) ≡ n
unfolding idle_workers
length-idle zero = refl
length-idle (suc n) = omega (arith, length-idle n)

none_stopped : (n : ℕ) → exists is_stopped (idle_workers n) ≡ false
unfolding idle_workers exists
none_stopped zero = refl
none_stopped (suc n) = none_stopped n

finished_stopped :
    (ws : List Worker) → 0 < length ws → is_finished ws ≡ true → exists is_stopped ws ≡ true
unfolding is_finished exists
finished_stopped [] h done = absurd (omega arith)
finished_stopped (w ∷ ws) h done = ground arith

-- When a pool of at least one worker has finished and the context was not done, no row is left: the
-- results are the rows of the file, each line as often, whatever the order of the steps.
pub finished_all_rows :
    (b : Bcrypt) (f : ℕ → ℕ) (rows : List CsvRow) (size : ℕ) (w : World) (q : PoolState)
    → 0 < size
    → Reach b (start rows size false w) q
    → is_finished q.workers ≡ true
    → q.is_cancelled ≡ false
    → (q.jobs ≡ []) × (weigh_results f q.results ≡ weigh_rows f rows)
unfolding start
finished_all_rows b f rows size w q some_worker reach done live =
    let sum = finished_results b f rows size false w q reach done in
    let count : length q.workers ≡ size = length-Reach reach ∙ length-idle size in
    elim (GoneForCause-Reach reach (inl (none_stopped size))) [
      | inl stay ↦
          absurd (ground (arith, stay, finished_stopped q.workers (omega (arith, count)) done))
      | inr (inl c) ↦ absurd (ground (arith, c, live))
      | inr (inr none_left) ↦ (none_left, omega (arith, sum, ap (weigh_rows f) none_left))
    ]
