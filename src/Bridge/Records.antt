-- ===== src/Bridge/Records.antt =====
-- internal/bridge/bridge.go: the list of the recent jobs, the latest last.
pub mod Recent
mod Tests
use brother_connect.Base.{
  ℕ, ◌-◌, ltb, ◌&&◌, Bool, true, false, String, str_eq, List, [], ◌∷◌, ◌++◌, length, drop,
  if◌then◌else◌,
}
use brother_connect.Job.State.{State}

-- `type JobRecord struct`
pub record JobRecord : Type 0 where
  pub job_id : String
  pub printer_id : String
  pub state : State
  pub reason : String
  pub at : ℕ

-- `maxJobRecords`
abbrev pub max_job_records : ℕ
max_job_records = 20

-- The record with the printer of the last one, if that is for the same job and it has none.
unfoldable pub inherit : JobRecord → JobRecord → JobRecord
inherit last r =
    if str_eq r.printer_id "" && str_eq last.job_id r.job_id
    then record r { printer_id = last.printer_id }
    else r

-- The replacing of the last record, or the appending.
unfoldable pub place : List JobRecord → JobRecord → List JobRecord
place [] r = r ∷ []
place (last ∷ []) r =
    if str_eq last.job_id r.job_id then inherit last r ∷ [] else last ∷ inherit last r ∷ []
place (first ∷ second ∷ more) r = first ∷ place (second ∷ more) r

-- `recordJob` on the list.
unfoldable pub record_job : List JobRecord → JobRecord → List JobRecord
record_job jobs r =
    let placed = place jobs r in
    if ltb max_job_records (length placed)
    then drop (length placed - max_job_records) placed
    else placed
