-- ===== src/Auth/Import/Cancelled.antt =====
-- An import whose context is done: the workers go, and the rows that are left have no result.
use seta_training.Prelude.{true, List, [], ◌∷◌, ◌≡◌, refl}
use seta_training.Auth.Libraries.{Bcrypt}
use seta_training.Auth.World.{World, cancelled}
use seta_training.Auth.Import.Csv.{CsvRow}
use seta_training.Auth.Import
use seta_training.Auth.Import.{
  PoolState, Reach, here, next, take, skip, start, is_finished, summary,
}

-- An import by one worker whose context is done may finish with one row counted, as failed, and listed,
-- and all others neither counted nor listed: they are left in the channel.
pub cancelled_import_loses_rows :
    (b : Bcrypt) (row : CsvRow) (rest : List CsvRow) (w : World)
    → (q : PoolState) × Reach b (start (row ∷ rest) 1 true w) q
      × (is_finished q.workers ≡ true)
      × (q.jobs ≡ rest)
      × ((summary q.results).succeeded ≡ 0)
      × ((summary q.results).failed ≡ 1)
      × ((summary q.results).errors ≡ record { row = row.line_no; reason = cancelled } ∷ [])
unfolding start is_finished summary Import.collect Import.idle_workers
cancelled_import_loses_rows b row rest w = (
  _,
  next (next here (take [] [] row rest refl refl)) (skip [] [] row refl refl),
  refl,
  refl,
  refl,
  refl,
  refl,
)
