-- ===== src/Bridge/Messages/Replies.antt =====
-- bridge.go: what the service is told, with a codec that can write every message and a buffer that
-- has room.
use brother_connect.Base.{
  ℕ, ◌+◌, ◌≤◌, ltb, ◌≡◌, refl, sym, ap, ◌∙◌, true, some, String, List, [], ◌∷◌, ◌++◌, append_assoc,
  append-nil, map, length, length-append, drop, arith, drop-append, drop_all,
}
use brother_connect.Bridge.Records.{JobRecord, record_job}
use brother_connect.Bridge.Records.Recent.{record_all}
use brother_connect.Bridge.State.{Bridge}
use brother_connect.Bridge.Messages.{
  tell, send_error, after_submit, on_job_transition, report_all, handle_job_deliver, on_message,
  work_and_report, rejection_text,
}
use brother_connect.Job.State.{new_tracker}
use brother_connect.Job.Validation.{Job}
use brother_connect.Protocol.{
  Codec, Envelope, Message, acknowledge, tell_status, tell_error, encode_message, decode_job,
  type_job_deliver, type_job_ack, type_job_status, type_error,
}
use brother_connect.Queue.Submit.{SubmitResult, accepted, duplicate, rejected, submit, work, Worker}
use brother_connect.Queue.Worker.{Outside, Report, Work}
use brother_connect.Queue.Worker.Reports.{reports_of, process_lem}
use brother_connect.Transport.Outbox.{Outbox, send_message}

-- The buffer with more messages.
abbrev pub with_messages : List Envelope → Outbox → Outbox
with_messages es o = record o {
  waiting = o.waiting ++ es;
  accepted_messages = o.accepted_messages ++ es;
}

-- The message as it is as_envelope.
abbrev pub as_envelope : (Message → List ℕ) → String → Message → Envelope
as_envelope text t m = record { type = t; payload = text m }

-- What follows an acknowledgement.
abbrev pub complaint : (Message → List ℕ) → SubmitResult → String → List Envelope
complaint text (rejected e) id =
    as_envelope text type_error
      (tell_error (record { code = "invalid_job"; message = rejection_text e; job_id = id }))
    ∷ []
complaint text accepted id = []
complaint text duplicate id = []

abbrev pub status_message : (Message → List ℕ) → Report → Envelope
status_message text r = as_envelope text type_job_status (
    tell_status
      (record { job_id = r.job_id; transition = r.transition; current_state = r.current }))

abbrev pub record_of : Report → JobRecord
record_of r = record {
  job_id = r.job_id;
  printer_id = "";
  state = r.current;
  reason = r.transition.reason;
  at = r.transition.at;
}

abbrev pub HasRoom : ℕ → Outbox → Type 0
HasRoom n o = length o.waiting + n ≤ o.buffer_size

with_messages-nil : (o : Outbox) → with_messages [] o ≡ o
with_messages-nil o = rw (append-nil o.waiting, append-nil o.accepted_messages) refl

with_messages-append :
    (es fs : List Envelope) (o : Outbox)
    → with_messages fs (with_messages es o) ≡ with_messages (es ++ fs) o
with_messages-append es fs o =
    rw (append_assoc o.waiting es fs, append_assoc o.accepted_messages es fs) refl

HasRoom-after :
    (n k : ℕ) (es : List Envelope) (o : Outbox)
    → length es ≡ k
    → HasRoom (k + n) o
    → HasRoom n (with_messages es o)
HasRoom-after n k es o l room = omega (arith, length-append o.waiting es, l, room)

send_message_lem :
    (o : Outbox) (e : Envelope) → HasRoom 1 o → (send_message o e).0 ≡ with_messages (e ∷ []) o
unfolding send_message
send_message_lem o e room = rw (full (length o.waiting) o.buffer_size room) refl
  where
    full : (k n : ℕ) → k + 1 ≤ n → ltb k n ≡ true
    full k n le = ground (arith, le)

module _ (codec : Codec) (text : Message → List ℕ)
    (writes : (m : Message) → codec.marshal_json m ≡ some (text m)) where
  pub tell_lem :
      (t : String) (m : Message) (o : Outbox)
      → HasRoom 1 o
      → tell codec t m o ≡ with_messages (as_envelope text t m ∷ []) o
  unfolding encode_message
  tell_lem t m o room = rw (writes m) (send_message_lem o (as_envelope text t m) room)

  after_submit_lem :
      (result : SubmitResult) (id : String) (o : Outbox)
      → HasRoom 1 o
      → after_submit codec result id o ≡ with_messages (complaint text result id) o
  unfolding send_error
  after_submit_lem (rejected e) id o room = tell_lem _ _ o room
  after_submit_lem accepted id o room = sym (with_messages-nil o)
  after_submit_lem duplicate id o room = sym (with_messages-nil o)

  module _ {W : Type 0} (o : Outside W) where
    -- A job_deliver that can be read, with a codec that writes every message and room for two messages:
    -- the job is submitted to the queue, and the service is told first that it was received, and then,
    -- if the queue rejects it, the error.
    -- Nothing else of the bridge changes.
    pub on_message-replies :
        (e : Envelope) (j : Job) (b : Bridge W) (out : Outbox)
        → e.type ≡ type_job_deliver
        → decode_job codec e ≡ some j
        → HasRoom 2 out
        → let (q, result) = submit o b.queue j in
          on_message codec o e (b, out) ≡ (
            record b { queue = q },
            with_messages
                (as_envelope text type_job_ack (acknowledge j.id) ∷ complaint text result j.id)
                out,
          )
    unfolding on_message handle_job_deliver
    on_message-replies e j b out t d room =
        rw (d, t)
          (ap (λ out'. (record b { queue = (submit o b.queue j).0 }, out'))
            (ap (λ out'. after_submit codec (submit o b.queue j).1 j.id out')
                (tell_lem type_job_ack (acknowledge j.id) out (omega (arith, room)))
              ∙ after_submit_lem (submit o b.queue j).1 j.id (with_messages (ack ∷ []) out)
                  (HasRoom-after 1 1 (ack ∷ []) out refl room)
              ∙ with_messages-append (ack ∷ []) (complaint text (submit o b.queue j).1 j.id) out))
      where
        ack : Envelope
        ack = as_envelope text type_job_ack (acknowledge j.id)

    report_all_lem :
        (reports : List Report) (b : Bridge W) (out : Outbox)
        → HasRoom (length reports) out
        → report_all codec reports (b, out) ≡ (
          record b { jobs = record_all b.jobs (map record_of reports) },
          with_messages (map (status_message text) reports) out,
        )
    unfolding report_all on_job_transition record_all
    report_all_lem [] b out room = ap (λ out'. (b, out')) (sym (with_messages-nil out))
    report_all_lem (r ∷ more) b out room =
        ap
          (λ out'.
            report_all codec more (record b { jobs = record_job b.jobs (record_of r) }, out'))
          (tell_lem _ _ out (omega (arith, room)))
        ∙ report_all_lem more (record b { jobs = record_job b.jobs (record_of r) })
            (with_messages (status_message text r ∷ []) out)
            (HasRoom-after (length more) 1 (status_message text r ∷ []) out refl
              (omega (arith, room)))
        ∙ ap
            (λ out'. (
              record b { jobs = record_all (record_job b.jobs (record_of r)) (map record_of more) },
              out',
            ))
            (with_messages-append (status_message text r ∷ []) (map (status_message text) more) out)

    -- One round of a worker with a job, with a codec that writes every message and room for four
    -- messages: the service is told of the job's four transitions in their order, and the recent jobs
    -- have taken in the same four.
    pub work_and_report-replies :
        (pid : String) (w : Worker) (j : Job) (rest : List Job) (b : Bridge W) (out : Outbox)
        → HasRoom 4 out
        → let reports = reports_of o j b.queue.world in
          work_and_report codec o pid w j rest (b, out) ≡ (
            record b {
              queue = work o b.queue pid w j rest;
              jobs = record_all b.jobs (map record_of reports);
            },
            with_messages (map (status_message text) reports) out,
          )
    unfolding work_and_report work
    work_and_report-replies pid w j rest b out room =
        ap (λ rs. report_all codec rs (record b { queue = work o b.queue pid w j rest }, out)) added
        ∙ report_all_lem (reports_of o j b.queue.world)
            (record b { queue = work o b.queue pid w j rest }) out room
      where
        start : Work W
        start = record {
          world = b.queue.world;
          dedup = b.queue.dedup;
          reports = b.queue.reports;
          tracker = new_tracker;
        }

        added :
            drop (length b.queue.reports) (work o b.queue pid w j rest).reports
            ≡ reports_of o j b.queue.world
        added =
            ap (λ rs. drop (length b.queue.reports) rs) (process_lem o j start).0
            ∙ drop-append (length b.queue.reports) b.queue.reports (reports_of o j b.queue.world)
                (omega arith)
            ∙ ap (λ rs. rs ++ reports_of o j b.queue.world)
                (drop_all (length b.queue.reports) b.queue.reports (omega arith))
