-- ===== src/Auth/Import.antt =====
-- `ImportFromCSV` of auth-service/internal/user/service.go: a pool of workers that take rows from one
-- channel and send results to another. What the workers do is a step relation, whose steps come in any
-- order, beside a cancellation and whatever else the servers do.
use seta_training.Prelude.{
  ℕ, zero, suc, ◌+◌, ◌*◌, String, Bool, true, false, Option, none, some, List, [], ◌∷◌, ◌++◌, ◌≡◌,
  Result, ok, err, ltb, leb, equal, ◌&&◌, if◌then◌else◌, length, attempt, pure,
}
use seta_training.Auth.Libraries.{Bcrypt}
use seta_training.Auth.Db.{User}
use seta_training.Auth.World.{World, Error, cancelled, Action, publish, users_imported}
use seta_training.Auth.Users
pub mod Trim
pub mod Csv
pub mod Pool
pub mod Progress
pub mod Summary
pub mod Cancelled
pub mod Run
mod Tests
use Csv.{CsvRow}

pub record RowResult : Type 0 where
  pub line_no : ℕ
  pub error : Option Error

-- A worker at the head of its loop, with a row, or gone.
pub data Worker : Type 0 where
  idle stopped : Worker
  holding : (row : CsvRow) → Worker

-- The two channels, the workers, whether the context is done, and the servers. The channel of the
-- rows has been filled and closed.
pub record PoolState : Type 0 where
  pub jobs : List CsvRow
  pub results : List RowResult
  pub workers : List Worker
  pub is_cancelled : Bool
  pub world : World

-- How many workers are started. A number that is not positive, which 0 stands for, is the default.
unfoldable pub pool_size : ℕ → ℕ → ℕ → ℕ
pool_size workers default_workers rows =
    let wanted : ℕ = if equal workers 0 then default_workers else workers in
    if ltb rows wanted && ltb 0 rows then rows else wanted

unfoldable pub idle_workers : ℕ → List Worker
idle_workers zero = []
idle_workers (suc n) = idle ∷ idle_workers n

unfoldable pub start : List CsvRow → ℕ → Bool → World → PoolState
start rows size is_cancelled w = record {
  jobs = rows;
  results = [];
  workers = idle_workers size;
  is_cancelled = is_cancelled;
  world = w;
}

abbrev pub error_of : {A : Type 0} → Result Error A → Option Error
error_of (ok a) = none
error_of (err e) = some e

abbrev pub result_of : {A : Type 0} → CsvRow → Result Error A → RowResult
result_of row r = record { line_no = row.line_no; error = error_of r }

module _ (b : Bcrypt) where
  -- `s.Register(ctx, …)` on a row.
  unfoldable pub register_row : CsvRow → World → Result Error User × World
  register_row row = Users.register b row.username row.email row.password row.role

  -- One step of one worker: it takes a row, gives up on it and goes as the context is done, registers
  -- it, or goes as there are no more.
  pub data Step (p : PoolState) : PoolState → Type 0 where
    take :
        (pre post : List Worker) (row : CsvRow) (rest : List CsvRow)
        → p.workers ≡ pre ++ idle ∷ post
        → p.jobs ≡ row ∷ rest
        → Step p (record p { jobs = rest; workers = pre ++ holding row ∷ post })
    skip :
        (pre post : List Worker) (row : CsvRow)
        → p.workers ≡ pre ++ holding row ∷ post
        → p.is_cancelled ≡ true
        → Step p (record p {
          results = p.results ++ record { line_no = row.line_no; error = some cancelled } ∷ [];
          workers = pre ++ stopped ∷ post;
        })
    handle :
        (pre post : List Worker) (row : CsvRow)
        → p.workers ≡ pre ++ holding row ∷ post
        → p.is_cancelled ≡ false
        → Step p (record p {
          results = p.results ++ result_of row (register_row row p.world).0 ∷ [];
          workers = pre ++ idle ∷ post;
          world = (register_row row p.world).1;
        })
    leave :
        (pre post : List Worker)
        → p.workers ≡ pre ++ idle ∷ post
        → p.jobs ≡ []
        → Step p (record p { workers = pre ++ stopped ∷ post })

  -- The pool after some steps, between which the context may be done and the servers may change.
  pub data Reach (p : PoolState) : PoolState → Type 0 where
    here : Reach p p
    next : {q r : PoolState} → Reach p q → Step q r → Reach p r
    cancel : {q : PoolState} → Reach p q → Reach p (record q { is_cancelled = true })
    elsewhere : {q : PoolState} (w : World) → Reach p q → Reach p (record q { world = w })

abbrev pub is_stopped : Worker → Bool
is_stopped stopped = true
is_stopped idle = false
is_stopped (holding row) = false

-- `wg.Wait()` returns: all workers are gone, and the channel of the results is closed.
unfoldable pub is_finished : List Worker → Bool
is_finished [] = true
is_finished (w ∷ ws) = is_stopped w && is_finished ws

pub record ImportError : Type 0 where
  pub row : ℕ
  pub reason : Error

pub record ImportResult : Type 0 where
  pub succeeded : ℕ
  pub failed : ℕ
  pub errors : List ImportError

abbrev pub count_result : Option Error → ℕ → ImportResult → ImportResult
count_result none row r = record r { succeeded = r.succeeded + 1 }
count_result (some e) row r = record r {
  failed = r.failed + 1;
  errors = r.errors ++ record { row = row; reason = e } ∷ [];
}

-- The loop over the results.
unfoldable pub collect : List RowResult → ImportResult → ImportResult
collect [] acc = acc
collect (r ∷ rs) acc = collect rs (count_result r.error r.line_no acc)

unfoldable pub insert_error : ImportError → List ImportError → List ImportError
insert_error e [] = e ∷ []
insert_error e (x ∷ xs) =
    let rest = insert_error e xs in if leb x.row e.row then x ∷ rest else e ∷ x ∷ xs

-- `sort.Slice` by the row
unfoldable pub sort_errors : List ImportError → List ImportError
unfolding insert_error
sort_errors [] = []
sort_errors (e ∷ es) = insert_error e (sort_errors es)

unfoldable pub summary : List RowResult → ImportResult
unfolding collect sort_errors
summary results =
    let r = collect results (record { succeeded = 0; failed = 0; errors = [] }) in
    record r { errors = sort_errors r.errors }

-- What is left to do once the pool has finished.
unfoldable pub finish : PoolState → World → ImportResult × World
unfolding summary
finish p w =
    let r = summary p.results in
    (r, (publish "user.events" (users_imported r.succeeded r.failed) w).1)
