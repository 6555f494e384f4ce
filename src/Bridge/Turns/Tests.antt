-- ===== src/Bridge/Turns/Tests.antt =====
-- bridge.go: a bridge whose codec writes nothing into its messages, with a job for one printer.
use brother_connect.Base.{
  ℕ, pos, ◌+◌, ◌≡◌, refl, true, false, str_eq, List, [], ◌∷◌, map, none, some, lookup, arith,
  if◌then◌else◌,
}
use brother_connect.Bridge.Records.Recent.{record_all}
use brother_connect.Bridge.State.{Bridge, Settings, new_bridge, snapshot, client_config}
use brother_connect.Bridge.Messages.{on_message, work_and_report}
use brother_connect.Bridge.Messages.Replies.{
  with_messages, as_envelope, complaint, status_message, record_of, on_message-replies,
  work_and_report-replies,
}
use brother_connect.Bridge.Discovery.{DriverAnswers, on_event}
use brother_connect.Bridge.Discovery.Updates.{on_event-shown, printer_shown, update_told}
use brother_connect.Bridge.Turns.{
  Turn, message_arrives, worker_prints, printer_changes, connection_changes, job_handed, take_turns,
}
use brother_connect.Bridge.Turns.Accounts.{run_client-on_message}
use brother_connect.Bridge.Turns.Invariant.{IsShort, snapshot-IsShort}
use brother_connect.Job.Validation.{Job}
use brother_connect.Printer.Types.{Printer, usb, ready, cover_open, DiscoveryEvent, connected}
use brother_connect.Protocol.{
  Codec, Envelope, Message, acknowledge, tell_printer, decode_job, type_job_deliver, type_job_ack,
  type_printer_update, type_welcome,
}
use brother_connect.Queue.Submit.{submit, work, Worker}
use brother_connect.Queue.Worker.{Outside}
use brother_connect.Queue.Worker.Reports.{reports_of}
use brother_connect.Transport.Backoff.{default_backoff}
use brother_connect.Transport.Outbox.{Outbox}
use brother_connect.Transport.Client.{Client, Round, answers, receives, takes, run_client}
use brother_connect.Transport.Client.Accounts.{IsAccounted}

abbrev job : Job
job = record {
  id = "job-1";
  tenant_id = "t1";
  user_id = "";
  printer_id = "p1";
  dimensions = record { width_mm = pos 50; height_mm = pos 70 };
  copies = pos 1;
  payload = 1 ∷ [];
  created_at = 0;
  metadata = [];
}

abbrev blank : Message → List ℕ
blank m = []

abbrev codec : Codec
codec = record {
  marshal_json = λ m. some [];
  read_job = λ bytes. some job;
  read_welcome = λ bytes. some (record { protocol_version = 1; session_id = "s" });
}

abbrev world : Outside ℕ
world = record { read_clock = λ w. (w, w + 1); print = λ w id doc opts. (none, w + 1) }

abbrev settings : Settings
settings = record {
  server_url = "wss://example";
  tenant_name = "";
  installation_id = "i";
  bridge_version = "dev";
  has_heartbeat = false;
}

abbrev start : Bridge ℕ
start = new_bridge 0

abbrev buffer : Outbox
buffer = record { buffer_size = 8; waiting = []; accepted_messages = [] }

abbrev delivery : Envelope
delivery = record { type = type_job_deliver; payload = [] }

abbrev worker : Worker
worker = record { printer_id = "p1"; jobs = job ∷ []; done = false }

abbrev printer : Printer
printer = record {
  id = "p1";
  model = "QL-820NWB";
  serial_number = "1";
  connection = usb;
  status = ready;
  dpi = 300;
  loaded_width_mm = pos 0;
  loaded_height_mm = pos 0;
}

abbrev arrival : DiscoveryEvent
arrival = record { kind = connected; printer = printer }

abbrev driver : DriverAnswers
driver = record {
  is_registrar = true;
  live_status = some cover_open;
  loaded_media = some (pos 62, pos 0);
}

abbrev turns : List Turn
turns =
    connection_changes true
    ∷ printer_changes driver arrival
    ∷ message_arrives delivery
    ∷ job_handed
    ∷ worker_prints "p1" worker job []
    ∷ []

snapshot-IsShort_example :
    IsShort (snapshot settings (take_turns codec world turns (new_bridge 0, buffer)).0).recent_jobs
snapshot-IsShort_example = snapshot-IsShort codec world settings 0 turns buffer

on_message-replies_example : on_message codec world delivery (start, buffer) ≡ (
  record start { queue = (submit world start.queue job).0 },
  with_messages
      (as_envelope blank type_job_ack (acknowledge "job-1")
        ∷ complaint blank (submit world start.queue job).1 "job-1")
      buffer,
)
unfolding decode_job
on_message-replies_example =
    on_message-replies codec blank (λ m. refl) world delivery job start buffer refl refl
      (omega arith)

work_and_report-replies_example : work_and_report codec world "p1" worker job [] (start, buffer) ≡ (
  record start {
    queue = work world start.queue "p1" worker job [];
    jobs = record_all start.jobs (map record_of (reports_of world job start.queue.world));
  },
  with_messages (map (status_message blank) (reports_of world job start.queue.world)) buffer,
)
work_and_report-replies_example =
    work_and_report-replies codec blank (λ m. refl) world "p1" worker job [] start buffer
      (omega arith)

on_event-shown_example :
    let (b', out') = on_event codec driver arrival (start, buffer) in
    (lookup "p1" b'.printers ≡ (
      if str_eq "p1" "p1"
      then printer_shown arrival.kind driver arrival.printer
      else lookup "p1" start.printers))
    × (out'
        ≡ with_messages
            (as_envelope blank type_printer_update
                (tell_printer (update_told arrival.kind driver arrival.printer))
              ∷ [])
            buffer)
on_event-shown_example =
    on_event-shown codec blank (λ m. refl) driver arrival start buffer "p1" (omega arith)

abbrev client : Client (Bridge ℕ)
client = record {
  bridge = start;
  outbox = buffer;
  backoff = default_backoff;
  taken_messages = [];
  notified = [];
  pauses = [];
  dials = 0;
}

abbrev round : Round
round = record {
  cancelled_before = false;
  dial_fault = none;
  hello_fault = none;
  reply = answers (record { type = type_welcome; payload = [] });
  events = receives delivery ∷ takes none ∷ [];
  late_events = [];
  cancelled_in_pause = false;
}

run_client-on_message_run :
    IsAccounted
      (run_client codec (client_config settings) (on_message codec world) (round ∷ []) client).1
run_client-on_message_run =
    run_client-on_message codec world (client_config settings) (round ∷ []) client
      (refl, omega arith)
