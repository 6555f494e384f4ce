-- ===== src/Lib.antt =====
-- A bridge between a cloud service and label printers: it takes print jobs over a WebSocket, keeps
-- one queue for each printer and drives Brother and NIIMBOT printers. A message becomes a job
-- (internal/job), the job is submitted to the queue (internal/queue), the worker of its printer
-- prints it with a driver (internal/printer) and reports each change of its state. The NIIMBOT driver
-- turns an image into rows and packets and talks to the printer in requests and replies
-- (internal/niimbot). The messages are those of internal/protocol, the client of internal/transport
-- keeps the connection, and the bridge of internal/bridge ties these together.
--
-- Files and sources
--   Base            helpers: lists measured by native numbers, tests, signed integers, texts, maps
--   Job             internal/job: Job.State is state.go (`Tracker.to` is `to`, `CanTransition` is
--                   `can_transition`), Job.Validation is job.go (`Validate` is `validate`)
--   Printer.Types   internal/printer/printer.go and errors.go: statuses, options, errors
--   Printer.Raster  internal/printer/render.go: `decodeBrotherRaster` up to its rows,
--                   `packbitsDecode`, `escCommandLen`, `looksLikeBrotherRaster`
--   Printer.Multi   internal/printer/multi.go: `resolve`, with `Status` as `status_of`, `Print` as
--                   `print_routed`, `Register` as `register_routed`
--   Printer.Niimbot internal/printer/niimbot.go: Printer.Niimbot.Device is the devices, `setStatus`,
--                   `open` and `probeStatus`, Printer.Niimbot.Printing is `Print` (`print_label`),
--                   Printer.Niimbot.Polling is `poll`
--   Queue           internal/queue: Queue.Dedup is dedup.go (`record` is `record_processed`),
--                   Queue.Worker is worker.go (`process`, `emit`, `classify`), Queue.Submit is
--                   queue.go with the worker goroutines (`Submit`, `Close`, `run`)
--   Niimbot.Packet  internal/niimbot/packet.go: `Marshal`, and the parser `Feed`, where `parse_next`
--                   is `next`
--   Niimbot.Client  internal/niimbot/client.go: `await`, `request`, `requestRetry`, heartbeats and
--                   printer information, with the codes of commands.go in Niimbot.Commands
--   Niimbot.Print   the same file: `Print` as `print_image`, `printB1`, `printD110`,
--                   `printB21V1`, `sendRows` and `waitByStatus`; `PrintOptions` is `PrintSettings`
--   Niimbot.Rfid    the same file: `RFID`
--   Niimbot.Identify  the same file: `DeviceType`, `Identify`, `SetModel` and `Model`
--   Niimbot.Model   internal/niimbot/model.go: the table of models and `ModelByDeviceType`
--   Niimbot.Image   internal/niimbot/image.go: `Encode` from the black pixels on, `RowPackets`
--   Protocol        internal/protocol/protocol.go: the messages, `Encode` and `Decode`
--   Transport       internal/transport: Transport.Backoff is backoff.go, Transport.Outbox the
--                   outbound buffer and `Send` of client.go, Transport.Client the rest of it (`Run` is
--                   `run_client`, `readLoop` and `writeLoop` are `serve` and `trail`)
--   Bridge          internal/bridge/bridge.go: Bridge.Records is `recordJob`, Bridge.State the bridge
--                   and its snapshot, Bridge.Messages the messages in and out, Bridge.Discovery
--                   `watchPrinters`, and Bridge.Turns puts the calls one after another
--   Enroll          internal/enroll/enroll.go: `RequestCode` is `request_code`, `Poll` is `poll_token`
--                   and `pollOnce` is `poll_once`, each from its response on
--   Configuration   internal/config/config.go: `Load`, `registerFlags` as `parse_flags`, `validate` as
--                   `validate_config`, and the helpers on the environment
--   Credstore       internal/credstore: credstore.go and file.go, with `Open` as `open_store`
-- A module below a component holds its proofs, and Tests its runs and examples.
--
-- How the program is modelled
-- Bytes are natural numbers below 256 with their wrap-around written out; Go's int is a natural number
-- where the code keeps it from being negative, and the signed integers of Base elsewhere. A nil slice
-- is the empty list, a nil pointer is `none`, and a panic is `none` where the code could meet one. Maps
-- are association lists, times are numbers, of milliseconds where a file does not say otherwise. Label
-- sizes, which the code only compares with zero, are signed integers.
--
-- The queue is a state with steps: `submit` is Submit up to the release of its lock, `hand` and
-- `give_up` are the two ways that its send to the worker's channel ends, `working` is one round of a
-- worker. A round is one step, so what two workers do at the same time is not interleaved within a
-- round. The printer driver and the clock are parameters (`Outside`).
--
-- The client's connection is a script with an entry for each round of `Run`: the outcome of the dial
-- and of the handshake, and then what its two goroutines meet, in any order. The script says what each
-- write comes to, so every interleaving and every failure is some script. Beside the buffer the model
-- keeps what was put into it and what was taken out, and the handler is a parameter, which the bridge
-- fills. The bridge is called in turns: by a message, the end of a delivery, a worker's round, an event
-- of discovery, or a change of the connection. While a delivered job is on its way into its worker's
-- channel the read loop takes no message. The JSON codec, the jitter and what a driver answers are
-- parameters. The delay before a reconnection is that of `DefaultBackoff`, with its factor 2.0, whose
-- float64 products are exact; another factor is not modelled.
--
-- The backend of the NIIMBOT printers is given, for each call, the links that connecting comes to, and
-- for each cycle of discovery what the scan finds and what `identify` reads. What the decoding and the
-- scaling of a document come to is given to `Print`. A call of `Print` is one step, and so is a cycle of
-- discovery.
--
-- A link to a NIIMBOT printer is a script of exchanges: what a write comes to, and what the wait for
-- the answer receives. Every sequence of packets, timeouts, cancellations and closed links is a script,
-- and a script that has run out is a printer that does not answer.
--
-- Loops are recursion on the list they go through. The parser's loop has fuel for each byte of its
-- buffer and one round more, which is enough since each round but the last consumes a byte. The loop
-- of `popcount` has as many rounds as the byte's value, which each round lowers; the loop over the
-- check lines has a round for each row up to the last. A loop that waits for a print has a round for
-- each exchange of the script and one more, which meets the silence after it. The loops over raster
-- data have a round for each byte, of which each round takes one at least.
--
-- Enrolment is a script of the rounds of `Poll`, with the response of each. For the settings, the flags
-- that the command line gives, the environment, the stored credentials and the functions of Go's
-- strings package are given. A save of credentials comes to an end, or to a place where an error or a
-- crash cuts it short.
--
-- Not modelled: the WebSocket and the HTTP requests themselves, the system calls on files and on
-- the keychain, the drivers of the system's printers, the other document formats, the look-ups of
-- NIIMBOT models by name, the user interface and the programs; input and output, logging and the
-- pacing of writes; and the binarisation and scaling of images, which is floating-point arithmetic.
pub mod Base
pub mod Niimbot
pub mod Job
pub mod Printer
pub mod Protocol
pub mod Transport
pub mod Queue
pub mod Bridge
pub mod Enroll
pub mod Configuration
pub mod Credstore
