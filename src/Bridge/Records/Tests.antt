-- ===== src/Bridge/Records/Tests.antt =====
-- bridge.go: the records of two jobs.
use brother_connect.Base.{◌≡◌, refl, String, [], ◌∷◌}
use brother_connect.Job.State.{State, queued, sent, completed}
use brother_connect.Bridge.Records.{JobRecord, inherit, place, record_job, max_job_records}
use brother_connect.Bridge.Records.Recent.{record_all, last_of_each, last_of, record_all-recent}

abbrev story : String → State → JobRecord
story job s = record { job_id = job; printer_id = ""; state = s; reason = ""; at = 0 }

two_jobs :
    record_all [] (story "a" queued ∷ story "a" sent ∷ story "b" queued ∷ story "a" completed ∷ [])
    ≡ story "a" sent ∷ story "b" queued ∷ story "a" completed ∷ []
unfolding record_all record_job place inherit
two_jobs = refl

record_all-recent_example :
    record_all [] (story "a" queued ∷ story "a" sent ∷ story "b" queued ∷ [])
    ≡ last_of max_job_records
        (last_of_each (story "a" queued ∷ story "a" sent ∷ story "b" queued ∷ []))
record_all-recent_example =
    record_all-recent (story "a" queued ∷ story "a" sent ∷ story "b" queued ∷ [])
