-- ===== src/Queue/Submit/History.antt =====
-- queue.go and worker.go: what a run of the queue does to the driver, the clock and the sink.
use brother_connect.Base.{
  String, Option, none, some, refl, str_eq_iff, rounds_of, ◌≢◌, ℕ, ◌≡◌, sym, ap, ◌∙◌, List, [], ◌∷◌,
  ◌++◌, append-nil, append_assoc, Bool-cases, inl, inr,
}
use brother_connect.Job.State.{new_tracker}
use brother_connect.Job.Validation.{Job}
use brother_connect.Queue.Dedup.{DedupStore, record_processed}
use brother_connect.Queue.Dedup.Memory.{processed_at}
use brother_connect.Queue.Dedup.Retention.{processed_at-record_processed}
use brother_connect.Queue.Worker.{Outside, Report}
use brother_connect.Queue.Worker.Copies.{IsProcessed, print_copies-Copies}
use brother_connect.Queue.Worker.Reports.{after, reports_of, printed as printing_of, process_lem}
use brother_connect.Queue.Submit.{
  Worker, Queue, SubmitResult, put, work, close, Event, queued, printed, Step, submitting, hand,
  give_up, working, closing, Reach, here, next, new_queue,
}
use brother_connect.Queue.Submit.Steps.{Answer, refused, known, late, taken, submit-Answer}
use brother_connect.Queue.Submit.Order.{close_closed, close_open}

remembers :
    (d : DedupStore) (now : ℕ) (pid jid : String)
    → processed_at (record_processed d now pid jid) pid jid ≢ none
remembers d now pid jid missing = absurd (
    apart
      (processed_at-record_processed d now pid jid pid jid
        ∙ rw ((str_eq_iff pid pid).1 refl, (str_eq_iff jid jid).1 refl) refl)
      missing)
  where
    apart : {t : Option ℕ} → t ≡ some now → t ≡ none → ⊥
    apart e e' = cc (e, e')

module _ {W : Type 0} (o : Outside W) where
  -- A worker's round processes its job, and the memory holds it then.
  pub work-IsProcessed :
      (q : Queue W) (pid : String) (w : Worker) (j : Job) (rest : List Job)
      → let s = work o q pid w j rest in
        (s.reports ≡ q.reports ++ reports_of o j q.world)
        × IsProcessed o j q.world (reports_of o j q.world) s.world
        × (processed_at s.dedup j.printer_id j.id ≢ none)
  unfolding work
  work-IsProcessed q pid w j rest =
      let (told, kept, world', state) =
        process_lem o j (record {
          world = q.world;
          dedup = q.dedup;
          reports = q.reports;
          tracker = new_tracker;
        }) in
      let printing' = printing_of o j q.world in
      (
        told,
        record {
          outcome = printing'.0;
          left = printing'.1;
          copies = print_copies-Copies o (rounds_of j.copies) j (after o 3 q.world);
          told = refl;
          ends = world';
        },
        rw kept (remembers q.dedup _ j.printer_id j.id),
      )

  -- What happens outside the queue along some events, from one state of the world to another, with
  -- the reports that the sink gets: the jobs that are printed are processed, and apart from that only
  -- the clock is read.
  pub data History : W → List Event → List Report → W → Type 0 where
    nothing : {w : W} → History w [] [] w
    clock_read : {w : W} → History w [] [] (o.read_clock w).1
    job_queued : {w : W} (j : Job) → History w (queued j ∷ []) [] w
    job_printed :
        {w w' : W} {rs : List Report} (j : Job)
        → IsProcessed o j w rs w'
        → History w (printed j ∷ []) rs w'
    followed_by :
        {w w' w'' : W} {es es' : List Event} {rs rs' : List Report}
        → History w es rs w'
        → History w' es' rs' w''
        → History w (es ++ es') (rs ++ rs') w''

  -- From one queue to another: the sink has got the reports of the history.
  abbrev pub Extends : Queue W → List Event → Queue W → Type 0
  Extends q es s =
      (rs : List Report) × (s.reports ≡ q.reports ++ rs) × History q.world es rs s.world

  Extends-Answer :
      {q : Queue W} {j : Job} {r : Queue W × SubmitResult} → Answer o q j r → Extends q [] r.0
  Extends-Answer {q} (refused e v) = ([], sym (append-nil q.reports), nothing)
  Extends-Answer {q} (known v s) = ([], sym (append-nil q.reports), clock_read)
  Extends-Answer {q} (late v s c) = ([], sym (append-nil q.reports), clock_read)
  Extends-Answer {q} (taken v s c) = ([], sym (append-nil q.reports), clock_read)

  Extends-close : (q : Queue W) → Extends q [] (close q)
  Extends-close q = elim (Bool-cases q.closed) [
    | inl e ↦ rw (close_closed q e) ([], sym (append-nil q.reports), nothing)
    | inr e ↦ rw (close_open q e) ([], sym (append-nil q.reports), nothing)
  ]

  Extends-Step : {q s : Queue W} {es : List Event} → Step o q es s → Extends q es s
  unfolding put work
  Extends-Step {q} (submitting j idle) = Extends-Answer (submit-Answer o q j)
  Extends-Step {q} (hand j w e there room) = ([], sym (append-nil q.reports), job_queued j)
  Extends-Step {q} (give_up j w e there done) = ([], sym (append-nil q.reports), nothing)
  Extends-Step {q} (working pid w j rest there e) =
      let (told, done, kept) = work-IsProcessed q pid w j rest in
      (reports_of o j q.world, told, job_printed j done)
  Extends-Step {q} closing = Extends-close q

  Extends-Reach : {q s : Queue W} {es : List Event} → Reach o q es s → Extends q es s
  Extends-Reach {q} here = ([], sym (append-nil q.reports), nothing)
  Extends-Reach {q} (next {es} {es'} {r} {s} run st) =
      let (rs, told, before) = Extends-Reach run in
      let (rs', told', then_) = Extends-Step st in
      (
        rs ++ rs',
        told' ∙ ap (λ ts. ts ++ rs') told ∙ append_assoc q.reports rs rs',
        followed_by before then_,
      )

  -- A run, and then another.
  pub Reach-trans :
      {q r s : Queue W} {es es' : List Event}
      → Reach o q es r
      → Reach o r es' s
      → Reach o q (es ++ es') s
  Reach-trans {q} {r} {s} {es} first here = rw (append-nil es) first
  Reach-trans {q} {r} {s} {es} first (next {es = es'} {es' = es''} run st) =
      rw (← append_assoc es es' es'') (next (Reach-trans first run) st)

  -- In every run of a new queue, the sink has got the reports of its events and no others.
  pub new_queue-History :
      (world : W) (retention : ℕ) {s : Queue W} {es : List Event}
      → Reach o (new_queue world retention) es s
      → History world es s.reports s.world
  unfolding new_queue
  new_queue-History world retention run =
      let (rs, told, history) = Extends-Reach run in rw told history
