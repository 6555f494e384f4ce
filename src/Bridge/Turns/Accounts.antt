-- ===== src/Bridge/Turns/Accounts.antt =====
-- bridge.go: every call of the bridge leaves the outbound buffer to `Send`.
use brother_connect.Base.{
  Bool-cases, inl, inr, Option, none, some, refl, String, str_eq, List, [], ◌∷◌, length, drop,
}
use brother_connect.Bridge.State.{Bridge}
use brother_connect.Bridge.Messages.{
  tell, send_if, send_error, after_submit, on_job_transition, report_all, deliver_job,
  handle_job_deliver, on_message, work_and_report,
}
use brother_connect.Bridge.Discovery.{on_event, send_printer_update}
use brother_connect.Bridge.Turns.{
  Turn, message_arrives, worker_prints, printer_changes, connection_changes, job_handed,
  job_dropped, if_idle, take_turn, take_turns,
}
use brother_connect.Job.Validation.{Job}
use brother_connect.Protocol.{
  Codec, Envelope, Message, encode_message, decode_job, type_job_deliver,
}
use brother_connect.Queue.Submit.{SubmitResult, accepted, duplicate, rejected, submit, work}
use brother_connect.Queue.Worker.{Outside, Report}
use brother_connect.Transport.Outbox.{Outbox}
use brother_connect.Transport.Client.{Client, Config, Fault, Round, run_client}
use brother_connect.Transport.Client.Accounts.{
  SendsTo, no_send, one_send, Accounts, SendsTo-Accounts, IsAccounted, run_client-IsAccounted,
}

SendsTo-trans : (o o' o'' : Outbox) → SendsTo o o' → SendsTo o' o'' → SendsTo o o''
SendsTo-trans o o' o'' (no_send e) s = rw e s
SendsTo-trans o o' o'' (one_send e t) s = one_send e (SendsTo-trans _ o' o'' t s)

send_if-SendsTo : (e : Option Envelope) (o : Outbox) → SendsTo o (send_if e o)
send_if-SendsTo none o = no_send refl
send_if-SendsTo (some e) o = one_send e (no_send refl)

module _ (codec : Codec) where
  tell-SendsTo : (t : String) (m : Message) (o : Outbox) → SendsTo o (tell codec t m o)
  tell-SendsTo t m o = send_if-SendsTo (encode_message codec t m) o

  after_submit-SendsTo :
      (result : SubmitResult) (id : String) (o : Outbox)
      → SendsTo o (after_submit codec result id o)
  unfolding send_error
  after_submit-SendsTo (rejected e) id o = tell-SendsTo _ _ o
  after_submit-SendsTo accepted id o = no_send refl
  after_submit-SendsTo duplicate id o = no_send refl

  module _ {W : Type 0} (o : Outside W) where
    report_all-SendsTo :
        (reports : List Report) (b : Bridge W) (out : Outbox)
        → SendsTo out (report_all codec reports (b, out)).1
    unfolding report_all on_job_transition
    report_all-SendsTo [] b out = no_send refl
    report_all-SendsTo (r ∷ more) b out =
        SendsTo-trans out _ _ (tell-SendsTo _ _ out) (report_all-SendsTo more _ _)

    deliver_job-SendsTo :
        (j : Option Job) (b : Bridge W) (out : Outbox) → SendsTo out (deliver_job codec o j b out).1
    deliver_job-SendsTo none b out = no_send refl
    deliver_job-SendsTo (some j) b out =
        SendsTo-trans out _ _ (tell-SendsTo _ _ out)
          (after_submit-SendsTo (submit o b.queue j).1 j.id _)

    on_message-SendsTo :
        (e : Envelope) (b : Bridge W) (out : Outbox) → SendsTo out (on_message codec o e (b, out)).1
    unfolding on_message handle_job_deliver
    on_message-SendsTo e b out = elim (Bool-cases (str_eq e.type type_job_deliver)) [
      | inl t ↦ rw t (deliver_job-SendsTo (decode_job codec e) b out)
      | inr f ↦ rw f (no_send refl)
    ]

    take_turn-SendsTo :
        (t : Turn) (b : Bridge W) (out : Outbox) → SendsTo out (take_turn codec o t (b, out)).1
    unfolding take_turn work_and_report on_event send_printer_update
    take_turn-SendsTo (message_arrives e) b out =
        by_handing b.queue.handing (on_message codec o e (b, out)) (on_message-SendsTo e b out)
      where
        by_handing :
            (j : Option Job) (taken : Bridge W × Outbox)
            → SendsTo out taken.1
            → SendsTo out (if_idle j taken (b, out)).1
        by_handing none taken s = s
        by_handing (some j) taken s = no_send refl
    take_turn-SendsTo (worker_prints pid w j rest) b out =
        report_all-SendsTo (drop (length b.queue.reports) (work o b.queue pid w j rest).reports) _
          out
    take_turn-SendsTo (printer_changes d ev) b out = tell-SendsTo _ _ out
    take_turn-SendsTo (connection_changes up) b out = no_send refl
    take_turn-SendsTo job_handed b out = no_send refl
    take_turn-SendsTo job_dropped b out = no_send refl

    take_turns-Accounts :
        (turns : List Turn) (taken : List (Envelope × Option Fault)) (b : Bridge W) (out : Outbox)
        → Accounts taken out
        → Accounts taken (take_turns codec o turns (b, out)).1
    unfolding take_turns
    take_turns-Accounts [] taken b out a = a
    take_turns-Accounts (t ∷ more) taken b out a =
        let (b', out') = take_turn codec o t (b, out) in
        take_turns-Accounts more taken b' out'
          (SendsTo-Accounts taken (take_turn-SendsTo t b out) a)

    -- Whatever the network and the service do, with the bridge for the handler and from a client in which
    -- this holds: after any number of rounds of `Run`, the messages taken from the outbound buffer and
    -- then those that wait in it are the messages that `Send` took, in their order, and no more wait than
    -- the buffer holds.
    pub run_client-on_message :
        (config : Config) (rounds : List Round) (c : Client (Bridge W))
        → IsAccounted c
        → IsAccounted (run_client codec config (on_message codec o) rounds c).1
    run_client-on_message config rounds c a =
        run_client-IsAccounted codec config (on_message codec o)
          (λ e b out. on_message-SendsTo e b out) rounds c a
