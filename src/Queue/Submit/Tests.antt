-- ===== src/Queue/Submit/Tests.antt =====
-- queue.go: the theorems on the run that delivers one job twice.
use brother_connect.Base.{
  ℕ, ◌+◌, ◌≡◌, ◌≢◌, refl, pos, List, [], ◌∷◌, ◌++◌, none, some, false, if◌then◌else◌,
}
use brother_connect.Job.Validation.{Job, validate}
use brother_connect.Queue.Dedup.{new_dedup_store}
use brother_connect.Queue.Dedup.Memory.{processed_at}
use brother_connect.Queue.Dedup.Retention.{within}
use brother_connect.Queue.Worker.{Outside, Report}
use brother_connect.Queue.Worker.Copies.{IsProcessed}
use brother_connect.Queue.Submit.{Queue, new_queue, submit, Reach, queued, printed, Event}
use brother_connect.Queue.Submit.Steps.{IsValid}
use brother_connect.Queue.Submit.Order.{waiting, queued_for, printed_for}
use brother_connect.Queue.Submit.History.{History, Reach-trans}
use brother_connect.Queue.Submit.Fifo.{fifo, channels-IsValid}
use brother_connect.Queue.Submit.Answers.{answer_for, is_accepted, submit_exact}
use brother_connect.Queue.Submit.Resubmission.{resubmitted_twice}

abbrev ticking : Outside ℕ
ticking = record { read_clock = λ w. (w, w + 1); print = λ w id doc opts. (none, w + 1) }

abbrev one_job : Job
one_job = record {
  id = "job-1";
  tenant_id = "t1";
  user_id = "";
  printer_id = "p1";
  dimensions = record { width_mm = pos 50; height_mm = pos 70 };
  copies = pos 1;
  payload = 1 ∷ [];
  created_at = 0;
  metadata = [];
}

one_job_valid : validate one_job ≡ none
unfolding validate
one_job_valid = refl

abbrev first_events : List Event
first_events = queued one_job ∷ queued one_job ∷ printed one_job ∷ []

resubmitted_twice_example :
    (r s : Queue ℕ) × Reach ticking (new_queue 0 7) first_events r
    × ((w : ℕ) × IsProcessed ticking one_job w r.reports r.world)
    × (processed_at r.dedup "p1" "job-1" ≢ none)
    × Reach ticking r (printed one_job ∷ []) s
    × ((more : List Report) × (s.reports ≡ r.reports ++ more)
        × IsProcessed ticking one_job r.world more s.world)
resubmitted_twice_example = resubmitted_twice ticking 0 7 one_job one_job_valid

abbrev events : List Event
events = first_events ++ (printed one_job ∷ [])

abbrev last_state : Queue ℕ
last_state = (resubmitted_twice ticking 0 7 one_job one_job_valid).1

abbrev whole_run : Reach ticking (new_queue 0 7) events last_state
whole_run =
    let (r, s, first, processed, known, again, more) =
      resubmitted_twice ticking 0 7 one_job one_job_valid in
    Reach-trans ticking first again

fifo_example :
    (queued_for "p1" events ≡ printed_for "p1" events ++ waiting "p1" last_state)
    × History ticking 0 events last_state.reports last_state.world
fifo_example = fifo ticking 0 7 "p1" whole_run

channels-IsValid_example : IsValid last_state
channels-IsValid_example = channels-IsValid ticking 0 7 whole_run

submit_exact_example :
    ((submit ticking (new_queue 0 7) one_job).1
      ≡ answer_for
          (validate one_job)
          (within 7 0 (processed_at (new_dedup_store 7) "p1" "job-1"))
          false)
    × ((submit ticking (new_queue 0 7) one_job).0.handing
        ≡ (if is_accepted (submit ticking (new_queue 0 7) one_job).1 then some one_job else none))
unfolding new_queue new_dedup_store
submit_exact_example = submit_exact ticking (new_queue 0 7) one_job (tt, tt)
