-- ===== src/Bridge/Messages.antt =====
-- internal/bridge/bridge.go: the messages that come in, and those that go out. A message that does
-- not fit the outbound buffer is lost with an entry of the log. The dump of a payload for debugging
-- is left out.
pub mod Replies
use brother_connect.Base.{
  ℕ, Bool, true, false, String, str_eq, str_append, Option, none, some, List, [], ◌∷◌, length, drop,
  if◌then◌else◌,
}
use brother_connect.Bridge.Records.{JobRecord, record_job}
use brother_connect.Bridge.State.{Bridge}
use brother_connect.Job.Validation.{
  Job, InvalidJob, missing_id, missing_tenant_id, missing_printer_id, copies_below_one,
  empty_payload, invalid_dimensions,
}
use brother_connect.Protocol.{
  Codec, Envelope, Message, acknowledge, tell_status, tell_error, encode_message, decode_job,
  type_job_deliver, type_job_ack, type_job_status, type_error,
}
use brother_connect.Queue.Submit.{
  Queue, Worker, SubmitError, invalid, queue_closed, SubmitResult, accepted, duplicate, rejected,
  submit, work,
}
use brother_connect.Queue.Worker.{Outside, Report}
use brother_connect.Transport.Outbox.{Outbox, send_message}

-- The message of `wrap`.
abbrev pub fault_text : InvalidJob → String
fault_text missing_id = "missing id"
fault_text missing_tenant_id = "missing tenant_id"
fault_text missing_printer_id = "missing printer_id"
fault_text copies_below_one = "copies must be >= 1"
fault_text empty_payload = "empty payload"
fault_text invalid_dimensions = "invalid dimensions"

-- `err.Error()` of a rejection; `errors.Join` puts a line break between its errors.
unfoldable pub rejection_text : SubmitError → String
rejection_text (invalid f) = str_append "invalid job\n" (fault_text f)
rejection_text queue_closed = "queue closed"

abbrev pub send_if : Option Envelope → Outbox → Outbox
send_if none o = o
send_if (some e) o = (send_message o e).0

module _ (codec : Codec) where
  -- `protocol.Encode` and `Send`, without the log.
  abbrev pub tell : String → Message → Outbox → Outbox
  tell t message o = send_if (encode_message codec t message) o

  -- `sendError`
  unfoldable pub send_error : String → String → String → Outbox → Outbox
  send_error code message job_id o =
      tell type_error (tell_error (record { code = code; message = message; job_id = job_id })) o

  -- What follows `Submit`.
  abbrev pub after_submit : SubmitResult → String → Outbox → Outbox
  after_submit (rejected e) job_id o = send_error "invalid_job" (rejection_text e) job_id o
  after_submit accepted job_id o = o
  after_submit duplicate job_id o = o

  -- `onJobTransition`
  unfoldable pub on_job_transition : {W : Type 0} → Report → Bridge W × Outbox → Bridge W × Outbox
  on_job_transition r (b, o) = (
    record b {
      jobs = record_job b.jobs (record {
        job_id = r.job_id;
        printer_id = "";
        state = r.current;
        reason = r.transition.reason;
        at = r.transition.at;
      });
    },
    tell type_job_status
        (tell_status
          (record { job_id = r.job_id; transition = r.transition; current_state = r.current }))
        o,
  )

  -- The calls of the sink for some reports in turn.
  unfoldable pub report_all : {W : Type 0} → List Report → Bridge W × Outbox → Bridge W × Outbox
  report_all [] s = s
  report_all (r ∷ more) s = report_all more (on_job_transition r s)

  module _ {W : Type 0} (o : Outside W) where
    abbrev pub deliver_job : Option Job → Bridge W → Outbox → Bridge W × Outbox
    deliver_job none b out = (b, out)
    deliver_job (some j) b out =
        let acknowledged = tell type_job_ack (acknowledge j.id) out in
        let (q, result) = submit o b.queue j in
        (record b { queue = q }, after_submit result j.id acknowledged)

    -- `handleJobDeliver`
    unfoldable pub handle_job_deliver : Envelope → Bridge W × Outbox → Bridge W × Outbox
    handle_job_deliver e (b, out) = deliver_job (decode_job codec e) b out

    -- `onMessage`
    unfoldable pub on_message : Envelope → Bridge W × Outbox → Bridge W × Outbox
    on_message e (b, out) =
        if str_eq e.type type_job_deliver then handle_job_deliver e (b, out) else (b, out)

    -- One round of a printer's worker, with the calls of the sink that it makes.
    unfoldable pub work_and_report :
        String → Worker → Job → List Job → Bridge W × Outbox → Bridge W × Outbox
    work_and_report pid w j rest (b, out) =
        let q = work o b.queue pid w j rest in
        report_all (drop (length b.queue.reports) q.reports) (record b { queue = q }, out)
