-- ===== src/Job/State/History.antt =====
-- state.go: what the history of a tracker says, whatever calls of `To` were made.
use brother_connect.Base.{
  ℕ, suc, ◌+◌, ◌≤◌, ◌≡◌, ◌≢◌, ◌↔◌, ◌⊎◌, inl, inr, refl, true, false, not, ◌||◌, String, decide_iff,
  str_eq_iff, none, some, List, [], ◌∷◌, ◌++◌, length, arith,
}
use brother_connect.Job.State.{
  State, State-discrete, created, queued, sent, printing, completed, failed, cancelled, Transition,
  Tracker, illegal_transition, reason_required, is_terminal, can_transition, new_tracker, to,
  eq_state,
}

-- One recorded transition: an edge of the diagram, with a reason if it is a failure.
pub record IsLegal (tr : Transition) : Type 0 where
  pub edge : can_transition tr.source tr.target ≡ true
  pub explained : tr.target ≡ failed → tr.reason ≢ ""

-- The transitions lead from one state to another, each starting where the last one ended.
pub data Chain : State → List Transition → State → Type 0 where
  here : (s : State) → Chain s [] s
  then :
      {s u : State} {trs : List Transition} (tr : Transition)
      → s ≡ tr.source
      → IsLegal tr
      → Chain tr.target trs u
      → Chain s (tr ∷ trs) u

Chain-snoc :
    {s u : State} {trs : List Transition} (tr : Transition)
    → Chain s trs u
    → u ≡ tr.source
    → IsLegal tr
    → Chain s (trs ++ (tr ∷ [])) tr.target
Chain-snoc tr (here s) e l = then tr e l (here tr.target)
Chain-snoc tr (then tr' e' l' c) e l = then tr' e' l' (Chain-snoc tr c e l)

-- A call of `To` by its arguments: the reading of the clock, the state and the reason.
pub record Call : Type 0 where
  pub now : ℕ
  pub target : State
  pub reason : String

-- A tracker after any calls, refused or not.
abbrev pub to_all : Tracker → List Call → Tracker
to_all t [] = t
to_all t (c ∷ cs) = to_all (to t c.now c.target c.reason).0 cs

abbrev pub IsSound : Tracker → Type 0
IsSound t = Chain created t.history t.current

eq_state_iff : (s t : State) → (eq_state s t ≡ true) ↔ (s ≡ t)
unfolding eq_state
eq_state_iff s t = decide_iff (State-discrete s t)

abbrev pub advanced : Tracker → ℕ → State → String → Tracker
advanced t now target reason = record {
  current = target;
  history =
      t.history ++ (record { source = t.current; target = target; at = now; reason = reason } ∷ []);
}

-- A move is allowed, and explained where it is a failure.
pub record IsAllowed (t : Tracker) (target : State) (reason : String) : Type 0 where
  pub edge : can_transition t.current target ≡ true
  pub explained : target ≡ failed → reason ≢ ""

pub to_accepts :
    (t : Tracker) (now : ℕ) (target : State) (reason : String)
    → IsAllowed t target reason
    → to t now target reason ≡ (advanced t now target reason, none)
unfolding to
to_accepts t now target reason h =
    ground (arith, eq_state_iff target failed, str_eq_iff reason "", h.explained)

-- The answer of `To`, whole: an allowed move is recorded with its time and reason and no error;
-- a move that the diagram lacks is refused as illegal, a failure with no reason as unexplained,
-- and both leave the tracker as it was.
pub to_cases :
    (t : Tracker) (now : ℕ) (target : State) (reason : String)
    → (IsAllowed t target reason × (to t now target reason ≡ (advanced t now target reason, none)))
      ⊎ (can_transition t.current target ≡ false)
        × (to t now target reason ≡ (t, some (illegal_transition t.current target)))
      ⊎ (target ≡ failed) × (reason ≡ "") × (to t now target reason ≡ (t, some reason_required))
unfolding to
to_cases t now target reason = ground (arith, eq_state_iff target failed, str_eq_iff reason "")

to-IsSound :
    (t : Tracker) (now : ℕ) (target : State) (reason : String)
    → IsSound t
    → IsSound (to t now target reason).0
to-IsSound t now target reason h = elim (to_cases t now target reason) [
  | inl (ok, e) ↦ rw e (Chain-snoc _ h refl (record { edge = ok.edge; explained = ok.explained }))
  | inr (inl (bad, e)) ↦ rw e h
  | inr (inr (f, empty, e)) ↦ rw e h
]

to_all-IsSound : (t : Tracker) (cs : List Call) → IsSound t → IsSound (to_all t cs)
to_all-IsSound t [] h = h
to_all-IsSound t (c ∷ cs) h =
    to_all-IsSound (to t c.now c.target c.reason).0 cs (to-IsSound t c.now c.target c.reason h)

-- How far a state is from `created`.
abbrev rank : State → ℕ
rank created = 0
rank queued = 1
rank sent = 2
rank printing = 3
rank _ = 4

can_fail_cancel :
    (s : State)
    → (can_transition s failed ≡ not (is_terminal s))
      × (can_transition s cancelled ≡ not (is_terminal s || eq_state s printing))
unfolding is_terminal can_transition eq_state
can_fail_cancel created = (refl, refl)
can_fail_cancel _ = (refl, refl)

-- The diagram as a relation.
pub data Edge : State → State → Type 0 where
  enqueue : Edge created queued
  hand_over : Edge queued sent
  start_print : Edge sent printing
  complete : Edge printing completed
  cancel : {s : State} → (s ≡ created) ⊎ (s ≡ queued) ⊎ (s ≡ sent) → Edge s cancelled
  fail : {s : State} → is_terminal s ≡ false → Edge s failed

can_transition-Edge : (s u : State) → can_transition s u ≡ true → Edge s u
unfolding can_transition is_terminal
can_transition-Edge s u e = grind (
  arith,
  eq_state_iff queued u,
  eq_state_iff sent u,
  eq_state_iff printing u,
  eq_state_iff completed u,
  eq_state_iff cancelled u,
  eq_state_iff failed u,
  enqueue,
  hand_over,
  start_print,
  complete,
  cancel,
  fail,
)

Edge-can_transition : {s u : State} → Edge s u → can_transition s u ≡ true
unfolding can_transition eq_state
Edge-can_transition enqueue = refl
Edge-can_transition hand_over = refl
Edge-can_transition start_print = refl
Edge-can_transition complete = refl
Edge-can_transition (cancel h) = ground arith
Edge-can_transition (fail {s} h) = ground (arith, can_fail_cancel s)

-- `CanTransition` decides the diagram: the line from created to completed, a cancellation from
-- the three states before printing, and a failure from any state that is not terminal.
pub can_transition_iff : (s u : State) → (can_transition s u ≡ true) ↔ Edge s u
can_transition_iff s u = (can_transition-Edge s u, Edge-can_transition)

rank_grows : (s u : State) → can_transition s u ≡ true → suc (rank s) ≤ rank u
unfolding can_transition
rank_grows s u e = ground (
  arith,
  eq_state_iff queued u,
  eq_state_iff sent u,
  eq_state_iff printing u,
  eq_state_iff completed u,
  eq_state_iff cancelled u,
  eq_state_iff failed u,
)

length-Chain-le :
    {s u : State} {trs : List Transition} → Chain s trs u → rank s + length trs ≤ rank u
length-Chain-le (here s) = omega arith
length-Chain-le (then tr e l c) =
    ground (arith, rank_grows tr.source tr.target l.edge, length-Chain-le c)

rank_bound : (s : State) → rank s ≤ 4
rank_bound s = ground arith

-- Whatever calls are made on a new tracker, with whatever arguments: its history leads from
-- `created` to its current state over edges of the diagram only, every failure in it has a
-- reason, and it holds four transitions at most.
pub to_all_history :
    (cs : List Call)
    → Chain created (to_all new_tracker cs).history (to_all new_tracker cs).current
      × (length (to_all new_tracker cs).history ≤ 4)
to_all_history cs =
    let c = to_all-IsSound new_tracker cs (unfold new_tracker in here created) in
    (c, omega (arith, length-Chain-le c, rank_bound (to_all new_tracker cs).current))

terminal_stuck : (s u : State) → is_terminal s ≡ true → can_transition s u ≡ false
unfolding is_terminal can_transition
terminal_stuck s u h = ground arith

-- A tracker in a terminal state never changes again: every call is refused as illegal.
pub to_terminal :
    (t : Tracker) (now : ℕ) (target : State) (reason : String)
    → is_terminal t.current ≡ true
    → to t now target reason ≡ (t, some (illegal_transition t.current target))
unfolding to
to_terminal t now target reason h = ground (arith, terminal_stuck t.current target h)

-- A job that is not terminal can fail at any time, if a reason is given; it can be cancelled,
-- with or without one, exactly if it is not printing.
pub to_failed_cancelled :
    (t : Tracker) (now : ℕ) (reason : String)
    → is_terminal t.current ≡ false
    → (reason ≢ "" → to t now failed reason ≡ (advanced t now failed reason, none))
      × (((to t now cancelled reason).1 ≡ none) ↔ (t.current ≢ printing))
unfolding to
to_failed_cancelled t now reason h = (
  (λ r.
      to_accepts t now failed reason
        (record { edge = ground (arith, can_fail_cancel t.current); explained = λ _. r })),
  ground (
    arith,
    can_fail_cancel t.current,
    eq_state_iff t.current printing,
    eq_state_iff cancelled failed,
  ),
)
