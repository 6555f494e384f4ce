-- ===== src/Queue/Worker.antt =====
-- internal/queue/worker.go: what a worker does with one job. The driver, the clock and all else
-- outside the queue are an `Outside`: a state with its operations. The messages of the log are left
-- out. Reports to the sink are collected in order.
pub mod Reports
pub mod Copies
mod Tests
use brother_connect.Base.{
  ℕ, zero, suc, Bool, true, false, String, str_append, Option, none, some, List, [], ◌∷◌, ◌++◌, ℤ,
  rounds_of, if◌then◌else◌,
}
use brother_connect.Job.State.{
  State, queued, sent, printing, completed, failed, Transition, Tracker, TransitionError,
  new_tracker, to,
}
use brother_connect.Job.Validation.{Job}
use brother_connect.Printer.Types.{
  Status, out_of_media, cover_open, wrong_media, offline, PrintOptions, PrintError, not_printable,
  unknown_printer, other,
}
use brother_connect.Queue.Dedup.{DedupStore, record_processed}

-- `printer.Driver.Print` and the clock, over the state of everything outside the queue.
pub record Outside (W : Type 0) : Type 0 where
  pub read_clock : W → ℕ × W
  pub print : W → String → List ℕ → PrintOptions → Option PrintError × W

-- A call of the `StatusSink`.
pub record Report : Type 0 where
  pub job_id : String
  pub transition : Transition
  pub current : State

-- What `process` works on.
pub record Work (W : Type 0) : Type 0 where
  pub world : W
  pub dedup : DedupStore
  pub reports : List Report
  pub tracker : Tracker

classify_status : Status → String
classify_status out_of_media = "printer is out of media"
classify_status cover_open = "printer cover is open"
classify_status wrong_media = "loaded media does not match the label size"
classify_status offline = "printer is offline"
classify_status _ = "printer is not ready"

-- `classify`
unfoldable pub classify : PrintError → String
unfolding classify_status
classify (not_printable id status) = classify_status status
classify (unknown_printer id) = "printer is not connected to this bridge"
classify (other text) = str_append "print failed: " text

-- `hist[len(hist)-1]`, of a history that is not empty.
abbrev last_transition : Transition → List Transition → Transition
last_transition tr [] = tr
last_transition tr (x ∷ xs) = last_transition x xs

module _ {W : Type 0} (o : Outside W) where
  -- The closure `emit`: the work after the call, and its result.
  unfoldable pub emit : Job → Work W → State → String → Work W × Bool
  emit j w target reason =
      let (now, world') = o.read_clock w.world in
      let (tracker', err) = to w.tracker now target reason in
      elim err [
        | some e ↦ (w, false)
        | none ↦ (
          record w {
            world = world';
            tracker = tracker';
            reports =
                w.reports
                ++ (record {
                  job_id = j.id;
                  transition =
                      last_transition
                        (record {
                          source = w.tracker.current;
                          target = target;
                          at = now;
                          reason = reason;
                        })
                        tracker'.history;
                  current = tracker'.current;
                }
                    ∷ []);
          },
          true,
        )
      ]

  -- The loop over the copies, which ends at the first error.
  unfoldable pub print_copies : ℕ → Job → PrintOptions → W → Option PrintError × W
  print_copies zero j opts world = (none, world)
  print_copies (suc rounds) j opts world =
      let (err, world') = o.print world j.printer_id j.payload opts in
      let later = print_copies rounds j opts world' in
      elim err [ some e ↦ (some e, world') | none ↦ later ]

  -- `dedup.record`, which reads the clock.
  remember : Job → Work W → Work W
  remember j w =
      let (now, world') = o.read_clock w.world in
      record w { world = world'; dedup = record_processed w.dedup now j.printer_id j.id }

  -- The end of `process`, from the error of the loop on.
  finish : Job → Option PrintError → Work W → Work W
  finish j (some e) w = remember j (emit j w failed (classify e)).0
  finish j none w = remember j (emit j w completed "").0

  print_and_finish : Job → Work W → Work W
  print_and_finish j w =
      let opts : PrintOptions = record {
        width_mm = j.dimensions.width_mm;
        height_mm = j.dimensions.height_mm;
      } in
      let (err, world') = print_copies (rounds_of j.copies) j opts w.world in
      finish j err (record w { world = world' })

  -- `process`. The tracker of the work that it is given is replaced.
  unfoldable pub process : Job → Work W → Work W
  unfolding remember finish print_and_finish
  process j w =
      let w₀ : Work W = record w { tracker = new_tracker } in
      let (w₁, ok₁) = emit j w₀ queued "" in
      let (w₂, ok₂) = emit j w₁ sent "" in
      let (w₃, ok₃) = emit j w₂ printing "" in
      if ok₁ then if ok₂ then if ok₃ then print_and_finish j w₃ else w₃ else w₂ else w₁
