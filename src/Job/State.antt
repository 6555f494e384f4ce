-- ===== src/Job/State.antt =====
-- internal/job/state.go and the states of internal/job/job.go. The clock of a `Tracker` is read once
-- by `To`, so its reading is an argument.
pub mod History
mod Tests
use mathlib.Core.Bool.{decide}
use brother_connect.Base.{
  ℕ, Bool, true, false, ◌&&◌, not, String, str_eq, Option, none, some, List, [], ◌∷◌, ◌++◌,
  if◌then◌else◌,
}

-- `type State string` with its constants.
pub data State : Type 0 where
  created queued sent printing completed failed cancelled : State

pub State-discrete : Discrete State
State-discrete = hlevel

unfoldable pub eq_state : State → State → Bool
unfolding State-discrete decide
eq_state s t = decide (State-discrete s t)

unfoldable pub is_terminal : State → Bool
is_terminal completed = true
is_terminal failed = true
is_terminal cancelled = true
is_terminal _ = false

pub record Transition : Type 0 where
  pub source : State
  pub target : State
  pub at : ℕ
  pub reason : String

-- The map `allowed`; a state with no entry reads as the empty slice.
unfoldable pub allowed : State → List State
allowed created = queued ∷ cancelled ∷ failed ∷ []
allowed queued = sent ∷ cancelled ∷ failed ∷ []
allowed sent = printing ∷ failed ∷ cancelled ∷ []
allowed printing = completed ∷ failed ∷ []
allowed _ = []

contains_state : List State → State → Bool
unfolding eq_state
contains_state [] to = false
contains_state (s ∷ ss) to =
    let later = contains_state ss to in if eq_state s to then true else later

unfoldable pub can_transition : State → State → Bool
unfolding allowed contains_state
can_transition from to = contains_state (allowed from) to

pub record Tracker : Type 0 where
  pub current : State
  pub history : List Transition

unfoldable pub new_tracker : Tracker
new_tracker = record { current = created; history = [] }

pub data TransitionError : Type 0 where
  illegal_transition : State → State → TransitionError
  reason_required : TransitionError

-- `Tracker.To`: the tracker after the call, and the error if there is one.
unfoldable pub to : Tracker → ℕ → State → String → Tracker × Option TransitionError
to t now target reason =
    if not (can_transition t.current target)
    then (t, some (illegal_transition t.current target))
    else if eq_state target failed && str_eq reason ""
    then (t, some reason_required)
    else (
      record {
        current = target;
        history =
            t.history
            ++ (record { source = t.current; target = target; at = now; reason = reason } ∷ []);
      },
      none,
    )
