-- ===== src/Auth/Import/Run.antt =====
-- `ImportFromCSV` of auth-service/internal/user/service.go as a whole, and `ImportUsers` of handler.go.
use seta_training.Prelude.{
  ℕ, ◌+◌, ◌*◌, ◌<◌, ◌≤◌, String, Bool, true, false, List, [], ◌∷◌, ◌≡◌, Result, ok, err, arith,
  length, Bool-cases, inl, inr, ◌⊎◌,
}
use Prim.Native.String.{◌++◌}
use seta_training.Core.Http.{Response, failure, success}
use seta_training.Auth.Libraries.{Bcrypt}
use seta_training.Auth.World.{World}
use seta_training.Auth.Import.{
  PoolState, ImportResult, Step, Reach, start, pool_size, is_finished, finish,
}
use seta_training.Auth.Import.Csv.{Read, CsvRow, CsvError, rows, error, parse_csv}
use seta_training.Auth.Import.Progress.{steps, run_is_bounded, effort-start}
use seta_training.Auth.Import.Summary.{import_counts, parse_csv-NumberedFrom}

-- What an import of a file may come to, by the steps that the workers happen to make.
pub data Imported (b : Bcrypt) (workers default_workers : ℕ) (is_cancelled : Bool) (w : World)
    (reads : List Read) : Result CsvError ImportResult × World → Type 0 where
  unread :
      (e : CsvError)
      → parse_csv reads ≡ error e
      → Imported b workers default_workers is_cancelled w reads (err e, w)
  counted :
      (rs : List CsvRow) (q : PoolState)
      → parse_csv reads ≡ rows rs
      → Reach b (start rs (pool_size workers default_workers (length rs)) is_cancelled w) q
      → is_finished q.workers ≡ true
      → Imported b workers default_workers is_cancelled w reads
          (ok (finish q q.world).0, (finish q q.world).1)

-- What Gin makes of the upload: no file of at most 10 MB in the field, none that opens, or its reads.
pub data Upload : Type 0 where
  missing : (reason : String) → Upload
  unopened : Upload
  opened : (reads : List Read) → Upload

-- The answer to an import; `text` is that of the error.
unfoldable pub write_import :
    (text : CsvError → String) → Result CsvError ImportResult → Response ImportResult
write_import text (err e) = failure 400 "BAD_REQUEST" ("failed to import users: " ++ text e)
write_import text (ok r) = success 200 r

-- The handler, by what the service comes to; `WithWorkers` has set the default, and a number of workers
-- that is no number is 0.
unfoldable pub import_users :
    (text : CsvError → String)
    → (List Read → Result CsvError ImportResult × World)
    → Upload
    → World
    → Response ImportResult × World
unfolding write_import
import_users text service (missing reason) w =
    (failure 400 "BAD_REQUEST" ("missing 'file' field: " ++ reason), w)
import_users text service unopened w = (failure 500 "INTERNAL_ERROR" "failed to open file", w)
import_users text service (opened reads) w =
    let (r, w') = service reads in (write_import text r, w')

-- The records behind the header are all counted, and the failed ones listed; or the file is refused.
abbrev pub AccountsFor : List Read → Result CsvError ImportResult → Type 0
AccountsFor reads (err e) = parse_csv reads ≡ error e
AccountsFor reads (ok r) =
    (r.succeeded + r.failed + 1 ≡ length reads) × (length r.errors ≡ r.failed)

reads_of_rows :
    (reads : List Read) (rs : List CsvRow)
    → parse_csv reads ≡ rows rs
    → length rs + 1 ≡ length reads
unfolding parse_csv
reads_of_rows [] rs h = absurd (ground arith)
reads_of_rows (header ∷ reads) rs h = omega (arith, (parse_csv-NumberedFrom header reads rs h).1)

-- Every run of an import whose file is read comes to an end, in whatever order the workers go: it takes
-- at most two steps for each row and one for each worker; before it has finished, a worker can go on;
-- and when it has finished, the context is done or the result counts every record behind the header and
-- lists as many errors as have failed. The default number of workers is to be positive.
pub import_ends :
    (b : Bcrypt) (workers default_workers : ℕ) (w : World) (reads : List Read) (rs : List CsvRow)
    (q : PoolState)
    → 0 < default_workers
    → parse_csv reads ≡ rows rs
    → (r : Reach b (start rs (pool_size workers default_workers (length rs)) false w) q)
    → (steps r ≤ 2 * length rs + pool_size workers default_workers (length rs))
      × (((z : PoolState) × Step b q z)
          ⊎ (Imported b workers default_workers false w reads
                (ok (finish q q.world).0, (finish q q.world).1)
              × ((q.is_cancelled ≡ true) ⊎ AccountsFor reads (ok (finish q q.world).0))))
unfolding finish
import_ends b workers default_workers w reads rs q h parsed r =
    let (bounded, goes_on) = run_is_bounded b _ q r in
    (
      omega
          (arith, bounded, effort-start rs (pool_size workers default_workers (length rs)) false w),
      elim goes_on [
        | inr step ↦ inl step
        | inl over ↦ inr (
          counted rs q parsed r over,
          elim (Bool-cases q.is_cancelled) [
            | inl done ↦ inl done
            | inr live ↦
                let (all, listed, ordered) =
                  import_counts b rs workers default_workers w q h r over live in
                inr (omega (arith, all, reads_of_rows reads rs parsed), listed)
          ],
        )
      ],
    )
