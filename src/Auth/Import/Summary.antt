-- ===== src/Auth/Import/Summary.antt =====
-- The answer to an import: its counts, and its errors in the order of their lines.
use seta_training.Prelude.{
  ℕ, suc, ◌+◌, ◌<◌, ◌≤◌, true, false, Option, none, some, List, [], ◌∷◌, ◌++◌, ◌≡◌, refl, arith, ap,
  length, leb, Bool-cases, inl, inr, All,
}
use seta_training.Auth.Libraries.{Bcrypt}
use seta_training.Auth.World.{World, Error}
use seta_training.Auth.Import.Csv.{
  CsvRow, Read, fields, failed, Parsed, rows, error, parse_lines, parse_csv, and_row, headed,
  validate_header,
}
use seta_training.Auth.Import.{
  RowResult, PoolState, Reach, start, is_finished, pool_size, ImportError, ImportResult,
  count_result, collect, insert_error, sort_errors, summary,
}
use seta_training.Auth.Import.Pool.{weigh_rows, weigh_results, finished_all_rows}

length-append : (es fs : List ImportError) → length (es ++ fs) ≡ length es + length fs
length-append [] fs = omega arith
length-append (e ∷ es) fs = omega (arith, length-append es fs)

count_once :
    (o : Option Error) (n : ℕ) (acc : ImportResult)
    → ((count_result o n acc).succeeded + (count_result o n acc).failed
        ≡ acc.succeeded + acc.failed + 1)
      × (length (count_result o n acc).errors + acc.failed
          ≡ (count_result o n acc).failed + length acc.errors)
count_once none n acc = (omega arith, omega arith)
count_once (some e) n acc =
    let one : List ImportError = record { row = n; reason = e } ∷ [] in
    (omega arith, omega (arith, length-append acc.errors one))

-- Each result is counted once, and each failed one is listed.
collect_counts :
    (rs : List RowResult) (acc : ImportResult)
    → ((collect rs acc).succeeded + (collect rs acc).failed
        ≡ acc.succeeded + acc.failed + length rs)
      × (length (collect rs acc).errors + acc.failed ≡ (collect rs acc).failed + length acc.errors)
unfolding collect
collect_counts [] acc = (omega arith, omega arith)
collect_counts (r ∷ rs) acc =
    let more = collect_counts rs (count_result r.error r.line_no acc) in
    let first = count_once r.error r.line_no acc in
    (omega (arith, more.0, first.0), omega (arith, more.1, first.1))

-- The errors are in the order of their lines.
abbrev pub InOrder : List ImportError → Type 0
InOrder [] = Unit
InOrder (e ∷ es) = All (λ x. e.row ≤ x.row) es × InOrder es

All-insert_error :
    (n : ℕ) (e : ImportError) (es : List ImportError)
    → n ≤ e.row
    → All (λ x. n ≤ x.row) es
    → All (λ x. n ≤ x.row) (insert_error e es)
unfolding insert_error
All-insert_error n e [] h all = (h, tt)
All-insert_error n e (x ∷ es) h all = elim (Bool-cases (leb x.row e.row)) [
  | inl later ↦ rw later (all.0, All-insert_error n e es h all.1)
  | inr first ↦ rw first (h, all)
]

All-above :
    (m n : ℕ) (es : List ImportError) → m ≤ n → All (λ x. n ≤ x.row) es → All (λ x. m ≤ x.row) es
All-above m n [] h all = tt
All-above m n (x ∷ es) h all = (omega (arith, all.0), All-above m n es h all.1)

insert_error-InOrder :
    (e : ImportError) (es : List ImportError) → InOrder es → InOrder (insert_error e es)
unfolding insert_error
insert_error-InOrder e [] h = (tt, tt)
insert_error-InOrder e (x ∷ es) h = elim (Bool-cases (leb x.row e.row)) [
  | inl later ↦
      rw later (All-insert_error x.row e es (ground arith) h.0, insert_error-InOrder e es h.1)
  | inr first ↦
      let le : e.row ≤ x.row = ground arith in rw first ((le, All-above e.row x.row es le h.0), h)
]

sort_errors-InOrder : (es : List ImportError) → InOrder (sort_errors es)
unfolding sort_errors
sort_errors-InOrder [] = tt
sort_errors-InOrder (e ∷ es) = insert_error-InOrder e (sort_errors es) (sort_errors-InOrder es)

length-insert_error :
    (e : ImportError) (es : List ImportError) → length (insert_error e es) ≡ suc (length es)
unfolding insert_error
length-insert_error e [] = refl
length-insert_error e (x ∷ es) = ground (arith, length-insert_error e es)

length-sort_errors : (es : List ImportError) → length (sort_errors es) ≡ length es
unfolding sort_errors
length-sort_errors [] = refl
length-sort_errors (e ∷ es) =
    omega (arith, length-insert_error e (sort_errors es), length-sort_errors es)

weigh_ones : (rs : List RowResult) → weigh_results (λ _. 1) rs ≡ length rs
weigh_ones [] = refl
weigh_ones (r ∷ rs) = omega (arith, weigh_ones rs)

weigh_rows_ones : (rs : List CsvRow) → weigh_rows (λ _. 1) rs ≡ length rs
weigh_rows_ones [] = refl
weigh_rows_ones (r ∷ rs) = omega (arith, weigh_rows_ones rs)

pool_size_pos :
    (workers default_workers n : ℕ) → 0 < default_workers → 0 < pool_size workers default_workers n
unfolding pool_size
pool_size_pos workers default_workers n h = ground arith

-- An import whose pool has finished and whose context was not done, whatever the order of the steps,
-- counts every row of the file as succeeded or failed, and lists as many errors as have failed, in the
-- order of their lines, if the default number of workers is positive.
pub import_counts :
    (b : Bcrypt) (rs : List CsvRow) (workers default_workers : ℕ) (w : World) (q : PoolState)
    → 0 < default_workers
    → Reach b (start rs (pool_size workers default_workers (length rs)) false w) q
    → is_finished q.workers ≡ true
    → q.is_cancelled ≡ false
    → ((summary q.results).succeeded + (summary q.results).failed ≡ length rs)
      × (length (summary q.results).errors ≡ (summary q.results).failed)
      × InOrder (summary q.results).errors
unfolding summary
import_counts b rs workers default_workers w q h reach done live =
    let all =
      finished_all_rows b (λ _. 1) rs (pool_size workers default_workers (length rs)) w q
        (pool_size_pos workers default_workers (length rs) h) reach done live in
    let counts = collect_counts q.results (record { succeeded = 0; failed = 0; errors = [] }) in
    let found : List ImportError =
      (collect q.results (record { succeeded = 0; failed = 0; errors = [] })).errors in
    (
      omega (arith, counts.0, all.1, weigh_ones q.results, weigh_rows_ones rs),
      omega (arith, counts.1, length-sort_errors found),
      sort_errors-InOrder found,
    )

abbrev pub NumberedFrom : ℕ → List CsvRow → Type 0
NumberedFrom n [] = Unit
NumberedFrom n (r ∷ rs) = (r.line_no ≡ n) × NumberedFrom (n + 1) rs

-- The rows that a reading gives are numbered from `n`, and are `k`.
abbrev IsNumbered : ℕ → ℕ → Parsed → Type 0
IsNumbered n k (rows rs) = NumberedFrom n rs × (length rs ≡ k)
IsNumbered n k (error e) = Unit

and_row-IsNumbered :
    (r : CsvRow) (n k : ℕ) (p : Parsed)
    → r.line_no ≡ n
    → IsNumbered (n + 1) k p
    → IsNumbered n (suc k) (and_row r p)
and_row-IsNumbered r n k (rows rs) is h = ((is, h.0), ap suc h.1)
and_row-IsNumbered r n k (error e) is h = tt

parse_lines-IsNumbered :
    (n : ℕ) (reads : List Read) → IsNumbered n (length reads) (parse_lines n reads)
unfolding parse_lines
parse_lines-IsNumbered n [] = (tt, refl)
parse_lines-IsNumbered n (fields a b c d ∷ reads) =
    and_row-IsNumbered _ n (length reads) (parse_lines (n + 1) reads) refl
      (parse_lines-IsNumbered (n + 1) reads)
parse_lines-IsNumbered n (failed reason ∷ reads) = tt

headed-IsNumbered :
    (o : Option ℕ) (reads : List Read) → IsNumbered 2 (length reads) (headed o reads)
headed-IsNumbered none reads = parse_lines-IsNumbered 2 reads
headed-IsNumbered (some n) reads = tt

-- A file of users that is read without an error has a row for each record behind the header, and the
-- rows are numbered by their lines, from the second on.
pub parse_csv-NumberedFrom :
    (header : Read) (reads : List Read) (rs : List CsvRow)
    → parse_csv (header ∷ reads) ≡ rows rs
    → NumberedFrom 2 rs × (length rs ≡ length reads)
unfolding parse_csv
parse_csv-NumberedFrom (failed reason) reads rs h = absurd (ground arith)
parse_csv-NumberedFrom (fields a b c d) reads rs h =
    let all : IsNumbered 2 (length reads) (headed (validate_header a b c d) reads) =
      headed-IsNumbered (validate_header a b c d) reads in
    rw h at all
