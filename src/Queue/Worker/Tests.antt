-- ===== src/Queue/Worker/Tests.antt =====
-- worker.go: the theorems for a driver that runs out of media.
use brother_connect.Base.{
  ℕ, suc, ◌+◌, ◌<◌, ◌≡◌, refl, ◌⊎◌, pos, [], ◌∷◌, none, some, ltb, if◌then◌else◌,
}
use brother_connect.Job.State.{failed, to, new_tracker, can_transition, eq_state}
use brother_connect.Job.Validation.{Job}
use brother_connect.Printer.Types.{PrintError, not_printable, out_of_media}
use brother_connect.Queue.Dedup.{new_dedup_store, record_processed}
use brother_connect.Queue.Worker.{Outside, Work, print_copies, process, emit, classify}
use brother_connect.Queue.Worker.Reports.{
  reports_of, printed, final_state, process_lem, print_copies_cases, after_prints, print_error,
  options_of, AllPrinted, reading, after,
}

-- The world counts what happens; from its fifth event on the media has run out.
abbrev counting : Outside ℕ
counting = record {
  read_clock = λ w. (w, w + 1);
  print = λ w id doc opts. (if ltb w 5 then none else some (not_printable id out_of_media), w + 1);
}

abbrev three_copies : Job
three_copies = record {
  id = "job-1";
  tenant_id = "t1";
  user_id = "";
  printer_id = "p1";
  dimensions = record { width_mm = pos 50; height_mm = pos 70 };
  copies = pos 3;
  payload = 1 ∷ [];
  created_at = 0;
  metadata = [];
}

abbrev fresh : Work ℕ
fresh = record { world = 0; dedup = new_dedup_store 0; reports = []; tracker = new_tracker }

-- Two copies are printed, the third fails.
fails_at_third : (process counting three_copies fresh).tracker.current ≡ failed
unfolding process emit print_copies to new_tracker can_transition eq_state classify
fails_at_third = refl

process_lem_example :
    ((process counting three_copies fresh).reports ≡ reports_of counting three_copies 0)
    × ((process counting three_copies fresh).dedup
        ≡ record_processed
            (new_dedup_store 0)
            (reading counting 1 (printed counting three_copies 0).1)
            "p1"
            "job-1")
    × ((process counting three_copies fresh).world
        ≡ after counting 2 (printed counting three_copies 0).1)
    × ((process counting three_copies fresh).tracker.current
        ≡ final_state counting (printed counting three_copies 0).0)
process_lem_example = process_lem counting three_copies fresh

print_copies_cases_run :
    (print_copies counting 3 three_copies (options_of counting three_copies) 3
        ≡ (none, after_prints counting 3 three_copies 3))
      × AllPrinted counting 3 three_copies 3
    ⊎ (k : ℕ) × (e : PrintError) × (k < 3)
      × AllPrinted counting k three_copies 3
      × (print_error counting k three_copies 3 ≡ some e)
      × (print_copies counting 3 three_copies (options_of counting three_copies) 3
          ≡ (some e, after_prints counting (suc k) three_copies 3))
print_copies_cases_run = print_copies_cases counting 3 three_copies 3
