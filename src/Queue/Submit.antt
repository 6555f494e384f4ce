-- ===== src/Queue/Submit.antt =====
-- internal/queue/queue.go: `Submit` and `Close`, and the goroutines of the workers as steps.
-- `Submit` is called by one goroutine, the read loop of the connection. Its last act, to put the
-- job into the worker's channel, happens outside the lock, so it is a step of its own, and `Close`
-- may come in between.
pub mod Steps
pub mod Order
pub mod History
pub mod Fifo
pub mod Answers
pub mod Resubmission
mod Tests
use brother_connect.Base.{
  ℕ, ltb, length, ◌≡◌, ◌<◌, Bool, true, false, String, lookup, insert, Option, none, some, List, [],
  ◌∷◌, ◌++◌, if◌then◌else◌,
}
use brother_connect.Job.State.{new_tracker}
use brother_connect.Job.Validation.{Job, InvalidJob, validate}
use brother_connect.Queue.Dedup.{DedupStore, new_dedup_store, seen_recently}
use brother_connect.Queue.Worker.{Outside, Report, Work, process}

-- `type worker struct`: the channel's content, and whether `done` is closed.
pub record Worker : Type 0 where
  pub printer_id : String
  pub jobs : List Job
  pub done : Bool

-- `type Queue struct`, with the world around it and the submission that is under way.
pub record Queue (W : Type 0) : Type 0 where
  pub world : W
  pub dedup : DedupStore
  pub reports : List Report
  pub workers : List (String × Worker)
  pub closed : Bool
  pub handing : Option Job

-- The capacity of a worker's channel.
abbrev pub capacity : ℕ
capacity = 64

pub data SubmitError : Type 0 where
  invalid : InvalidJob → SubmitError
  queue_closed : SubmitError

-- `SubmitResult` with the error of a rejection.
pub data SubmitResult : Type 0 where
  accepted duplicate : SubmitResult
  rejected : SubmitError → SubmitResult

-- `newWorker`
abbrev pub new_worker : String → Worker
new_worker pid = record { printer_id = pid; jobs = []; done = false }

-- The worker of a printer, made if there is none.
unfoldable pub ensure_worker : String → List (String × Worker) → List (String × Worker)
ensure_worker pid workers = elim (lookup pid workers) [
  | none ↦ insert pid (new_worker pid) workers
  | some w ↦ workers
]

-- `stop` of each worker.
unfoldable pub stop_all : List (String × Worker) → List (String × Worker)
stop_all [] = []
stop_all ((pid, w) ∷ ws) = (pid, record w { done = true }) ∷ stop_all ws

-- `New`: a queue over a world, with a retention for its memory.
unfoldable pub new_queue : {W : Type 0} → W → ℕ → Queue W
new_queue world retention = record {
  world = world;
  dedup = new_dedup_store retention;
  reports = [];
  workers = [];
  closed = false;
  handing = none;
}

-- `Close` up to the wait for the workers.
unfoldable pub close : {W : Type 0} → Queue W → Queue W
close q = if q.closed then q else record q { closed = true; workers = stop_all q.workers }

-- `worker.submit` that puts the job into the channel.
unfoldable pub put : {W : Type 0} → Queue W → Job → Worker → Queue W
put q j w = record q {
  workers = insert j.printer_id (record w { jobs = w.jobs ++ (j ∷ []) }) q.workers;
  handing = none;
}

-- What an observer of the channels sees.
pub data Event : Type 0 where
  queued : Job → Event
  printed : Job → Event

module _ {W : Type 0} (o : Outside W) where
  -- `Submit` up to the release of the lock. An accepted job is then in `handing`.
  unfoldable pub submit : Queue W → Job → Queue W × SubmitResult
  submit q j =
      let (now, world') = o.read_clock q.world in
      let (dedup', seen) = seen_recently q.dedup now j.printer_id j.id in
      let q' : Queue W = record q { world = world'; dedup = dedup' } in
      elim (validate j) [
        | some e ↦ (q, rejected (invalid e))
        | none ↦
            if seen then (q', duplicate) else if q.closed then (q', rejected queue_closed) else (
              record q' { workers = ensure_worker j.printer_id q.workers; handing = some j },
              accepted,
            )
      ]

  -- One round of a worker's `run` that receives the job `j`.
  unfoldable pub work : Queue W → String → Worker → Job → List Job → Queue W
  work q pid w j rest =
      let start : Work W = record {
        world = q.world;
        dedup = q.dedup;
        reports = q.reports;
        tracker = new_tracker;
      } in
      let end = process o j start in
      record q {
        world = end.world;
        dedup = end.dedup;
        reports = end.reports;
        workers = insert pid (record w { jobs = rest }) q.workers;
      }

  -- The steps of the system. A worker may leave its loop once it is stopped, with jobs in its
  -- channel or without: that changes nothing here, it only takes no further `work` step.
  pub data Step (q : Queue W) : List Event → Queue W → Type 0 where
    submitting : (j : Job) → q.handing ≡ none → Step q [] (submit q j).0
    hand :
        (j : Job) (w : Worker)
        → q.handing ≡ some j
        → lookup j.printer_id q.workers ≡ some w
        → length w.jobs < capacity
        → Step q (queued j ∷ []) (put q j w)
    give_up :
        (j : Job) (w : Worker)
        → q.handing ≡ some j
        → lookup j.printer_id q.workers ≡ some w
        → w.done ≡ true
        → Step q [] (record q { handing = none })
    working :
        (pid : String) (w : Worker) (j : Job) (rest : List Job)
        → lookup pid q.workers ≡ some w
        → w.jobs ≡ j ∷ rest
        → Step q (printed j ∷ []) (work q pid w j rest)
    closing : Step q [] (close q)

  -- A run of the system with all its events, the latest last.
  pub data Reach (q : Queue W) : List Event → Queue W → Type 0 where
    here : Reach q [] q
    next :
        {es es' : List Event} {r s : Queue W} → Reach q es r → Step r es' s → Reach q (es ++ es') s
