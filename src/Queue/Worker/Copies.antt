-- ===== src/Queue/Worker/Copies.antt =====
-- worker.go: the calls of the driver for the copies of a job, and the reports that go with them.
use brother_connect.Base.{
  ℕ, zero, suc, ◌≡◌, Option, none, some, List, [], ◌∷◌, rounds_of, Option-cases, inl, inr,
}
use brother_connect.Job.State.{created, queued, sent, printing}
use brother_connect.Job.Validation.{Job}
use brother_connect.Printer.Types.{PrintError}
use brother_connect.Queue.Worker.{Outside, Report, print_copies}
use brother_connect.Queue.Worker.Reports.{
  after, reading, options_of, report, final_state, final_reason,
}

module _ {W : Type 0} (o : Outside W) where
  -- The driver is called for a number of copies, up to the first error.
  pub data Copies (j : Job) : ℕ → W → Option PrintError → W → Type 0 where
    no_copy : {w : W} → Copies j zero w none w
    copy_fails :
        {n : ℕ} {w : W} (e : PrintError)
        → (o.print w j.printer_id j.payload (options_of o j)).0 ≡ some e
        → Copies j (suc n) w (some e) (o.print w j.printer_id j.payload (options_of o j)).1
    copy_printed :
        {n : ℕ} {w w' : W} {err : Option PrintError}
        → (o.print w j.printer_id j.payload (options_of o j)).0 ≡ none
        → Copies j n (o.print w j.printer_id j.payload (options_of o j)).1 err w'
        → Copies j (suc n) w err w'

  pub print_copies-Copies :
      (n : ℕ) (j : Job) (w : W)
      → let (err, w') = print_copies o n j (options_of o j) w in Copies j n w err w'
  unfolding print_copies
  print_copies-Copies zero j w = no_copy
  print_copies-Copies (suc n) j w =
      elim (Option-cases (o.print w j.printer_id j.payload (options_of o j)).0) [
        | inl h ↦
            rw (h, print_copies)
              (copy_printed h
                (print_copies-Copies n j (o.print w j.printer_id j.payload (options_of o j)).1))
        | inr (e, h) ↦ rw (h, print_copies) (copy_fails e h)
      ]

  -- The reports of a job from the world at its start, and the outcome of its copies.
  abbrev pub four_reports : Job → W → Option PrintError → W → List Report
  four_reports j w err w' =
      report j created queued (reading o 0 w) ""
      ∷ report j queued sent (reading o 1 w) ""
      ∷ report j sent printing (reading o 2 w) ""
      ∷ report j printing (final_state o err) (reading o 0 w') (final_reason o err)
      ∷ []

  -- What it is to process a job: three readings of the clock with their reports, the calls of the
  -- driver for all copies or up to the first error, the report of the outcome, and one reading more.
  pub record IsProcessed (j : Job) (w : W) (reports : List Report) (end : W) : Type 0 where
    pub outcome : Option PrintError
    pub left : W
    pub copies : Copies j (rounds_of j.copies) (after o 3 w) outcome left
    pub told : reports ≡ four_reports j w outcome left
    pub ends : end ≡ after o 2 left
