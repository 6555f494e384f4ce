-- ===== src/Bridge/Turns.antt =====
-- internal/bridge/bridge.go: the bridge as a whole, which the connection, the workers and discovery
-- take turns to call. A turn is one call, or the end of a delivery: a job that the queue has accepted
-- is put into its worker's channel, or dropped if the worker is stopped, and the read loop takes no
-- message before that. A turn that cannot be taken changes nothing.
pub mod Invariant
pub mod Accounts
mod Tests
use brother_connect.Base.{
  ℕ, ltb, length, lookup, Bool, true, false, Option, none, some, String, List, [], ◌∷◌,
  if◌then◌else◌,
}
use brother_connect.Bridge.State.{Bridge, set_connected}
use brother_connect.Bridge.Messages.{on_message, work_and_report}
use brother_connect.Bridge.Discovery.{DriverAnswers, on_event}
use brother_connect.Job.Validation.{Job}
use brother_connect.Printer.Types.{DiscoveryEvent}
use brother_connect.Protocol.{Codec, Envelope}
use brother_connect.Queue.Submit.{Worker, Queue, put, capacity}
use brother_connect.Queue.Worker.{Outside}
use brother_connect.Transport.Outbox.{Outbox}

pub data Turn : Type 0 where
  message_arrives : Envelope → Turn
  worker_prints : String → Worker → Job → List Job → Turn
  printer_changes : DriverAnswers → DiscoveryEvent → Turn
  connection_changes : Bool → Turn
  job_handed job_dropped : Turn

-- Whether the read loop is free; if it is, a message is taken.
abbrev pub if_idle {ℓ} : {S : Type ℓ} → Option Job → S → S → S
if_idle none taken s = taken
if_idle (some j) taken s = s

module _ {W : Type 0} where
  abbrev pub with_worker : Queue W → (Job → Worker → Queue W) → Queue W
  with_worker q f = elim q.handing [
    | none ↦ q
    | some j ↦ elim (lookup j.printer_id q.workers) [ none ↦ q | some w ↦ f j w ]
  ]

  -- The end of `Submit`: the channel of the worker takes the job, if it has room.
  unfoldable pub hand_over_job : Queue W → Queue W
  hand_over_job q = with_worker q (λ j w. if ltb (length w.jobs) capacity then put q j w else q)

  -- The other end of it: the worker is stopped.
  unfoldable pub give_up_job : Queue W → Queue W
  give_up_job q = with_worker q (λ j w. if w.done then record q { handing = none } else q)

module _ {W : Type 0} (codec : Codec) (o : Outside W) where
  unfoldable pub take_turn : Turn → Bridge W × Outbox → Bridge W × Outbox
  take_turn (message_arrives e) s = if_idle s.0.queue.handing (on_message codec o e s) s
  take_turn (worker_prints pid w j rest) s = work_and_report codec o pid w j rest s
  take_turn (printer_changes d ev) s = on_event codec d ev s
  take_turn (connection_changes up) (b, out) = (set_connected up b, out)
  take_turn job_handed (b, out) = (record b { queue = hand_over_job b.queue }, out)
  take_turn job_dropped (b, out) = (record b { queue = give_up_job b.queue }, out)

  unfoldable pub take_turns : List Turn → Bridge W × Outbox → Bridge W × Outbox
  take_turns [] s = s
  take_turns (t ∷ more) s = take_turns more (take_turn t s)
