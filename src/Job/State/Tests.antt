-- ===== src/Job/State/Tests.antt =====
-- state.go: the theorems at concrete inputs.
use brother_connect.Base.{
  ◌≡◌, refl, ◌↔◌, ◌≢◌, ◌⊎◌, ◌≤◌, true, false, String, List, [], ◌∷◌, none, some, length,
}
use brother_connect.Job.State.{
  created, queued, sent, printing, completed, failed, cancelled, Tracker, new_tracker, to,
  can_transition, is_terminal, eq_state, illegal_transition, reason_required,
}
use brother_connect.Job.State.History.{
  Call, Chain, Edge, IsAllowed, advanced, to_all, to_all_history, can_transition_iff, to_terminal,
  to_failed_cancelled, to_cases,
}

-- The calls of a job that is printed, and then is asked to be cancelled.
abbrev happy : List Call
happy =
    record { now = 1; target = queued; reason = "" }
    ∷ record { now = 2; target = sent; reason = "" }
    ∷ record { now = 3; target = printing; reason = "" }
    ∷ record { now = 4; target = failed; reason = "" }
    ∷ record { now = 5; target = completed; reason = "" }
    ∷ record { now = 6; target = cancelled; reason = "late" }
    ∷ []

happy_completes : (to_all new_tracker happy).current ≡ completed
unfolding to new_tracker can_transition eq_state
happy_completes = refl

length-happy : length (to_all new_tracker happy).history ≡ 4
unfolding to new_tracker can_transition eq_state
length-happy = refl

to_all_history_example :
    Chain created (to_all new_tracker happy).history (to_all new_tracker happy).current
    × (length (to_all new_tracker happy).history ≤ 4)
to_all_history_example = to_all_history happy

can_transition_iff_example : (can_transition printing cancelled ≡ true) ↔ Edge printing cancelled
can_transition_iff_example = can_transition_iff printing cancelled

abbrev done : Tracker
done = record { current = completed; history = [] }

abbrev running : Tracker
running = record { current = printing; history = [] }

to_terminal_run : to done 7 failed "late" ≡ (done, some (illegal_transition completed failed))
to_terminal_run = to_terminal done 7 failed "late" (unfold is_terminal in refl)

to_failed_cancelled_run :
    (◌≢◌ {A = String} "jam" ""
      → to running 7 failed "jam" ≡ (advanced running 7 failed "jam", none))
    × (((to running 7 cancelled "jam").1 ≡ none) ↔ (printing ≢ printing))
to_failed_cancelled_run = to_failed_cancelled running 7 "jam" (unfold is_terminal in refl)

to_cases_run :
    (IsAllowed running failed "" × (to running 7 failed "" ≡ (advanced running 7 failed "", none)))
    ⊎ (can_transition printing failed ≡ false)
      × (to running 7 failed "" ≡ (running, some (illegal_transition printing failed)))
    ⊎ (failed ≡ failed)
      × (◌≡◌ {A = String} "" "")
      × (to running 7 failed "" ≡ (running, some reason_required))
to_cases_run = to_cases running 7 failed ""
