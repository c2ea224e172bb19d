-- ===== src/Auth/Import/Tests.antt =====
-- Imports of small files.
use seta_training.Prelude.{◌≤◌, ◌⊎◌, ◌+◌, true, false, List, [], ◌∷◌, ◌≡◌, refl, arith, length}
use seta_training.Auth.Import
use seta_training.Auth.Import.{
  PoolState, Step, Reach, here, next, take, handle, leave, start, pool_size, is_finished, summary,
  idle, finish,
}
use seta_training.Auth.Import.Csv.{CsvRow, Read, fields}
use seta_training.Auth.Import.Progress.{run_is_bounded, steps, effort}
use seta_training.Auth.World.{cancelled}
use seta_training.Auth.Import.Summary.{import_counts, InOrder}
use seta_training.Auth.Import.Cancelled.{cancelled_import_loses_rows}
use seta_training.Auth.Import.Csv.{no_header}
use seta_training.Auth.Import.{ImportResult}
use seta_training.Auth.Import.Run.{import_users, write_import, opened}
use seta_training.Core.Http.{failure}
use seta_training.Prelude.{err}
use seta_training.Auth.Samples.{bcrypt, servers}

abbrev cid : CsvRow
cid = record { line_no = 2; username = "cid"; email = "cid@x"; password = "pass"; role = "member" }

abbrev file : List Read
file = fields "Username" " email" "password" "role " ∷ fields " cid" "cid@x" "pass" "member" ∷ []

-- A pool of one worker that has handled the one row.
abbrev started : PoolState
started = start (cid ∷ []) (pool_size 0 5 1) false servers

abbrev ended : PoolState
ended = record {
  jobs = [];
  results = Import.result_of cid (Import.register_row bcrypt cid servers).0 ∷ [];
  workers = Import.stopped ∷ [];
  is_cancelled = false;
  world = (Import.register_row bcrypt cid servers).1;
}

ended-Reach : Reach bcrypt started ended
unfolding start pool_size Import.idle_workers
ended-Reach =
    next (next (next here (take [] [] cid [] refl refl)) (handle [] [] cid refl refl))
      (leave [] [] refl refl)

run_is_bounded_example :
    (steps ended-Reach + effort ended ≤ effort started)
    × ((is_finished ended.workers ≡ true) ⊎ ((z : PoolState) × Step bcrypt ended z))
run_is_bounded_example = run_is_bounded bcrypt started ended ended-Reach

import_counts_example :
    ((summary ended.results).succeeded + (summary ended.results).failed ≡ 1)
    × (length (summary ended.results).errors ≡ (summary ended.results).failed)
    × InOrder (summary ended.results).errors
unfolding is_finished
import_counts_example =
    import_counts bcrypt (cid ∷ []) 0 5 servers ended (omega arith) ended-Reach refl refl

cancelled_import_loses_rows_example :
    (q : PoolState) × Reach bcrypt (start (cid ∷ cid ∷ []) 1 true servers) q
    × (is_finished q.workers ≡ true)
    × (q.jobs ≡ cid ∷ [])
    × ((summary q.results).succeeded ≡ 0)
    × ((summary q.results).failed ≡ 1)
    × ((summary q.results).errors ≡ record { row = 2; reason = cancelled } ∷ [])
cancelled_import_loses_rows_example = cancelled_import_loses_rows bcrypt cid (cid ∷ []) servers

-- The answer to a file with no header.
test_import_users :
    (import_users (λ e. "empty") (λ reads. (err no_header, servers)) (opened []) servers).0
    ≡ failure 400 "BAD_REQUEST" "failed to import users: empty"
unfolding import_users write_import
test_import_users = refl
