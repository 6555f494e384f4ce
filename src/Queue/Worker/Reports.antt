-- ===== src/Queue/Worker/Reports.antt =====
-- worker.go: what one run of `process` does, in one straight line.
use text.Mathlib.TextLemmas.{cons-append}
use brother_connect.Base.{
  ℕ, zero, suc, ◌<◌, ◌≡◌, ◌≢◌, ◌⊎◌, refl, true, String, Option, none, some, List, [], ◌∷◌, ◌++◌,
  append_assoc, rounds_of, arith, Option-cases, inl, inr,
}
use brother_connect.Job.State.{
  State, created, queued, sent, printing, completed, failed, Transition, new_tracker,
  can_transition,
}
use brother_connect.Job.State.History.{IsAllowed, advanced, to_accepts}
use brother_connect.Job.Validation.{Job}
use brother_connect.Printer.Types.{
  Status, ready, PrintOptions, PrintError, not_printable, unknown_printer, other,
}
use brother_connect.Queue.Dedup.{record_processed}
use brother_connect.Queue.Worker.{
  Outside, Report, Work, classify_status, classify, last_transition, emit, print_copies, finish,
  process,
}

-- Every error of a driver has a reason.
classify-ne-empty : (e : PrintError) → classify e ≢ ""
unfolding classify
classify-ne-empty (not_printable id status) h = known status h
  where
    known : (s : Status) → classify_status s ≢ ""
    known ready h = cc h
    known _ h = cc h
classify-ne-empty (unknown_printer id) h = cc h
classify-ne-empty (other text) h = cc (cons-append "p" "rint failed: " text, h)

last_transition-snoc :
    (x tr : Transition) (trs : List Transition) → last_transition x (trs ++ (tr ∷ [])) ≡ tr
last_transition-snoc x tr [] = refl
last_transition-snoc x tr (y ∷ trs) = last_transition-snoc y tr trs

abbrev step : State → State → ℕ → String → Transition
step source target now reason = record {
  source = source;
  target = target;
  at = now;
  reason = reason;
}

-- The report of a step of the job's life.
abbrev pub report : Job → State → State → ℕ → String → Report
report j source target now reason = record {
  job_id = j.id;
  transition = step source target now reason;
  current = target;
}

module _ {W : Type 0} (o : Outside W) where
  -- The work after an `emit` that succeeds.
  abbrev emitted : Job → Work W → State → String → Work W
  emitted j w target reason = record w {
    world = (o.read_clock w.world).1;
    tracker = advanced w.tracker (o.read_clock w.world).0 target reason;
    reports = w.reports ++ (report j w.tracker.current target (o.read_clock w.world).0 reason ∷ []);
  }

  emit_lem :
      (j : Job) (w : Work W) (target : State) (reason : String)
      → IsAllowed w.tracker target reason
      → emit o j w target reason ≡ (emitted j w target reason, true)
  unfolding emit
  emit_lem j w target reason h =
      let accepted = to_accepts w.tracker (o.read_clock w.world).0 target reason h in
      rw (accepted, emit) (rw accepted (rw last_transition-snoc))

  -- The readings of the clock, the outcome of the printing, and the state and reason at the end.
  abbrev pub after : ℕ → W → W
  after zero w = w
  after (suc n) w = (o.read_clock (after n w)).1

  abbrev pub reading : ℕ → W → ℕ
  reading n w = (o.read_clock (after n w)).0

  abbrev pub options_of : Job → PrintOptions
  options_of j = record { width_mm = j.dimensions.width_mm; height_mm = j.dimensions.height_mm }

  abbrev pub printed : Job → W → Option PrintError × W
  printed j w = print_copies o (rounds_of j.copies) j (options_of j) (after 3 w)

  abbrev pub final_state : Option PrintError → State
  final_state none = completed
  final_state (some e) = failed

  abbrev pub final_reason : Option PrintError → String
  final_reason none = ""
  final_reason (some e) = classify e

  abbrev pub reports_of : Job → W → List Report
  reports_of j w =
      let (err, w₄) = printed j w in
      report j created queued (reading 0 w) ""
      ∷ report j queued sent (reading 1 w) ""
      ∷ report j sent printing (reading 2 w) ""
      ∷ report j printing (final_state err) (reading 0 w₄) (final_reason err)
      ∷ []

  finish_lem :
      (j : Job) (err : Option PrintError) (w : Work W)
      → w.tracker.current ≡ printing
      → finish o j err w ≡ (
          let w' = emitted j w (final_state err) (final_reason err) in
          record w' {
            world = (o.read_clock w'.world).1;
            dedup = record_processed w'.dedup (o.read_clock w'.world).0 j.printer_id j.id;
          })
  unfolding process can_transition
  finish_lem j none w h =
      rw (emit_lem j w completed "" (record { edge = rw h refl; explained = λ e. cc }))
  finish_lem j (some e) w h = rw (
      emit_lem j w failed (classify e)
        (record { edge = rw h refl; explained = λ _. classify-ne-empty e }))

  -- The work when the printing starts.
  abbrev started : Job → Work W → Work W
  started j w =
      emitted j (emitted j (emitted j (record w { tracker = new_tracker }) queued "") sent "")
        printing ""

  process_start :
      (j : Job) (w : Work W)
      → process o j w
        ≡ finish o j (printed j w.world).0 (record (started j w) { world = (printed j w.world).1 })
  unfolding process can_transition new_tracker
  process_start j w =
      let w₀ : Work W = record w { tracker = new_tracker } in
      let w₁ : Work W = emitted j w₀ queued "" in
      let w₂ : Work W = emitted j w₁ sent "" in
      rw (
        emit_lem j w₀ queued "" (record { edge = refl; explained = λ e. cc }),
        emit_lem j w₁ sent "" (record { edge = refl; explained = λ e. cc }),
        emit_lem j w₂ printing "" (record { edge = refl; explained = λ e. cc }),
      )

  -- `process` on any job, with any driver: exactly four reports to the sink, created to queued to
  -- sent to printing and then to completed, or to failed with the reason of the printing error;
  -- each has the time of its own reading of the clock. The job is remembered as processed at a
  -- later reading in both cases, and nothing else of the memory is touched.
  pub process_lem :
      (j : Job) (w : Work W)
      → ((process o j w).reports ≡ w.reports ++ reports_of j w.world)
        × ((process o j w).dedup
            ≡ record_processed w.dedup (reading 1 (printed j w.world).1) j.printer_id j.id)
        × ((process o j w).world ≡ after 2 (printed j w.world).1)
        × ((process o j w).tracker.current ≡ final_state (printed j w.world).0)
  process_lem j w =
      let (err, world') = printed j w.world in
      rw (process_start j w, finish_lem j err (record (started j w) { world = world' }) refl)
        (unfold new_tracker in simp append_assoc, refl, refl, refl)

  -- The world after a number of calls of the driver, and the error of the call after these.
  abbrev pub after_prints : ℕ → Job → W → W
  after_prints zero j w = w
  after_prints (suc n) j w = after_prints n j (o.print w j.printer_id j.payload (options_of j)).1

  abbrev pub print_error : ℕ → Job → W → Option PrintError
  print_error n j w = (o.print (after_prints n j w) j.printer_id j.payload (options_of j)).0

  abbrev pub AllPrinted : ℕ → Job → W → Type 0
  AllPrinted n j w = (i : ℕ) → i < n → print_error i j w ≡ none

  AllPrinted-suc :
      (n : ℕ) (j : Job) (w : W)
      → print_error 0 j w ≡ none
      → AllPrinted n j (after_prints 1 j w)
      → AllPrinted (suc n) j w
  AllPrinted-suc n j w first rest zero h = first
  AllPrinted-suc n j w first rest (suc i) h = rest i (omega arith)

  -- The copies of a job: the driver is called for every copy and each call succeeds, or it is
  -- called up to the first error and never after it, and that error is the answer.
  pub print_copies_cases :
      (n : ℕ) (j : Job) (w : W)
      → (print_copies o n j (options_of j) w ≡ (none, after_prints n j w)) × AllPrinted n j w
        ⊎ (k : ℕ) × (e : PrintError) × (k < n)
          × AllPrinted k j w
          × (print_error k j w ≡ some e)
          × (print_copies o n j (options_of j) w ≡ (some e, after_prints (suc k) j w))
  unfolding print_copies
  print_copies_cases zero j w = inl (refl, λ i h. absurd (omega arith))
  print_copies_cases (suc n) j w = elim (Option-cases (print_error 0 j w)) [
    | inr (e, h) ↦ inr (0, e, omega arith, (λ i h. absurd (omega arith)), h, rw (h, print_copies))
    | inl h ↦ elim (print_copies_cases n j (after_prints 1 j w)) [
      | inl (all, clean) ↦ inl (rw (h, print_copies) all, AllPrinted-suc n j w h clean)
      | inr (k, e, lt, clean, bad, r) ↦
          inr (suc k, e, omega arith, AllPrinted-suc k j w h clean, bad, rw (h, print_copies) r)
    ]
  ]
