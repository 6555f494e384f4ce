-- ===== src/Queue/Submit/Answers.antt =====
-- queue.go: the answers of `Submit` against the memory of processed jobs.
use brother_connect.Base.{◌≡◌, refl, Bool, true, false, Option, none, some, if◌then◌else◌}
use brother_connect.Job.Validation.{Job, InvalidJob, validate}
use brother_connect.Queue.Dedup.Memory.{processed_at}
use brother_connect.Queue.Dedup.Memory
use brother_connect.Queue.Dedup.Retention.{within, seen_recently_exact}
use brother_connect.Queue.Worker.{Outside}
use brother_connect.Queue.Submit.{
  Queue, SubmitResult, accepted, duplicate, rejected, invalid, queue_closed, submit,
}
use brother_connect.Queue.Submit.Steps.{
  Answer, refused, known, late, taken, submit-Answer, was_seen,
}

-- The answer that the rules ask for, from the job's errors, whether it was processed within the
-- retention, and whether the queue is closed.
abbrev pub answer_for : Option InvalidJob → Bool → Bool → SubmitResult
answer_for (some e) processed closed = rejected (invalid e)
answer_for none true closed = duplicate
answer_for none false true = rejected queue_closed
answer_for none false false = accepted

abbrev pub is_accepted : SubmitResult → Bool
is_accepted accepted = true
is_accepted _ = false

module _ {W : Type 0} (o : Outside W) where
  answered :
      {q : Queue W} {j : Job} {r : Queue W × SubmitResult}
      → Answer o q j r
      → (r.1 ≡ answer_for (validate j) (was_seen o q j) q.closed)
        × (r.0.handing ≡ (if is_accepted r.1 then some j else q.handing))
        × (r.0.reports ≡ q.reports)
  answered {q} {j} (refused e v) = (rw v, refl, refl)
  answered {q} {j} (known v s) = (rw (v, s), refl, refl)
  answered {q} {j} (late v s c) = (cc (v, s, c), refl, refl)
  answered {q} {j} (taken v s c) = (cc (v, s, c), refl, refl)

  -- `Submit`, in every case: an invalid job is rejected with its error; a valid one that was
  -- processed at most the retention ago, by the clock at the call, is a duplicate; any other is
  -- rejected if the queue is closed and accepted if not. Only an accepted job is handed on.
  pub submit_exact :
      (q : Queue W) (j : Job)
      → Memory.IsValid q.dedup
      → ((submit o q j).1
          ≡ answer_for
              (validate j)
              (within q.dedup.retention
                (o.read_clock q.world).0
                (processed_at q.dedup j.printer_id j.id))
              q.closed)
        × ((submit o q j).0.handing ≡ (if is_accepted (submit o q j).1 then some j else q.handing))
  submit_exact q j h =
      let (result, handed, same) = answered (submit-Answer o q j) in
      (
        rw (← (seen_recently_exact q.dedup (o.read_clock q.world).0 j.printer_id j.id h).0) result,
        handed,
      )
