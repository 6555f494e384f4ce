-- ===== src/Queue/Submit/Fifo.antt =====
-- queue.go and worker.go: each printer's jobs are printed in the order in which they were queued.
use mathlib.Core.Option
use brother_connect.Base.{
  ℕ, ◌≡◌, refl, sym, ◌∙◌, String, str_eq, str_eq_iff, lookup, insert, lookup-insert, Option, none,
  some, List, [], ◌∷◌, ◌++◌, append-nil, append_assoc, All, if◌then◌else◌, arith, Option-cases,
  Bool-cases, inl, inr,
}
use brother_connect.Job.Validation.{Job}
use brother_connect.Queue.Worker.{Outside}
use brother_connect.Queue.Submit.{
  Worker, Queue, SubmitResult, ensure_worker, stop_all, close, work, put, Event, Step, submitting,
  hand, give_up, working, closing, Reach, here, next, new_queue,
}
use brother_connect.Queue.Submit.Steps.{
  IsFor, IsValid, stopped, lookup-stop_all, Answer, refused, known, late, taken, submit-Answer,
}
use brother_connect.Queue.Submit.History.{History, new_queue-History}
use brother_connect.Queue.Submit.Order.{
  jobs_of, waiting, queued_for, printed_for, queued_for-append, printed_for-append, Step-IsValid,
  close_closed, close_open, nothing,
}

waiting-ensure_worker :
    (pid pid' : String) (ws : List (String × Worker))
    → jobs_of (lookup pid (ensure_worker pid' ws)) ≡ jobs_of (lookup pid ws)
unfolding ensure_worker
waiting-ensure_worker pid pid' ws = elim (Option-cases (lookup pid' ws)) [
  | inr (w, e) ↦ rw (e, ensure_worker)
  | inl e ↦
      rw (e, ensure_worker)
        (rw lookup-insert (elim (Bool-cases (str_eq pid' pid)) [
          | inl same ↦ rw (same, ← (str_eq_iff pid' pid).0 same, e)
          | inr apart ↦ rw apart
        ]))
]

waiting-stop_all :
    (pid : String) (ws : List (String × Worker))
    → jobs_of (lookup pid (stop_all ws)) ≡ jobs_of (lookup pid ws)
waiting-stop_all pid ws = rw lookup-stop_all (same (lookup pid ws))
  where
    same : (o : Option Worker) → jobs_of (Option.map stopped o) ≡ jobs_of o
    same none = refl
    same (some w) = refl

waiting-close : {W : Type 0} (pid : String) (q : Queue W) → waiting pid (close q) ≡ waiting pid q
waiting-close pid q = elim (Bool-cases q.closed) [
  | inl e ↦ rw (close_closed q e)
  | inr e ↦ rw (close_open q e) (waiting-stop_all pid q.workers)
]

-- The channel of one printer after a write of a worker.
waiting-insert :
    (pid pid' : String) (w : Worker) (ws : List (String × Worker))
    → jobs_of (lookup pid (insert pid' w ws))
      ≡ (if str_eq pid' pid then w.jobs else jobs_of (lookup pid ws))
waiting-insert pid pid' w ws =
    rw lookup-insert (elim (Bool-cases (str_eq pid' pid)) [ inl e ↦ rw e | inr e ↦ rw e ])

module _ {W : Type 0} (o : Outside W) where
  waiting-Answer :
      (pid : String) {q : Queue W} {j : Job} {r : Queue W × SubmitResult}
      → Answer o q j r
      → waiting pid r.0 ≡ waiting pid q
  waiting-Answer pid (refused e v) = refl
  waiting-Answer pid (known v s) = refl
  waiting-Answer pid (late v s c) = refl
  waiting-Answer pid {q} {j} (taken v s c) = waiting-ensure_worker pid j.printer_id q.workers

  -- A step takes a printed job off the front, and puts a queued one at the end.
  waiting-Step :
      (pid : String) {q s : Queue W} {es : List Event}
      → IsValid q
      → Step o q es s
      → printed_for pid es ++ waiting pid s ≡ waiting pid q ++ queued_for pid es
  unfolding put work
  waiting-Step pid {q} h (submitting j idle) =
      waiting-Answer pid (submit-Answer o q j) ∙ sym (append-nil (waiting pid q))
  waiting-Step pid {q} h (hand j w e there room) = ground (
    arith,
    waiting-insert pid j.printer_id (record w { jobs = w.jobs ++ (j ∷ []) }) q.workers,
    str_eq_iff j.printer_id pid,
    append-nil (waiting pid q),
  )
  waiting-Step pid {q} h (give_up j w e there done) = sym (append-nil (waiting pid q))
  waiting-Step pid {q} h (working pid' w j rest there e) =
      let k = h.workers pid' w there in
      let mine : All (IsFor pid') (j ∷ rest) = rw e at k.mine in
      ground (
        arith,
        mine.0.0,
        waiting-insert pid pid' (record w { jobs = rest }) q.workers,
        str_eq_iff pid' pid,
        append-nil (waiting pid q),
      )
  waiting-Step pid {q} h closing = waiting-close pid q ∙ sym (append-nil (waiting pid q))

  Reach-IsValid : {q s : Queue W} {es : List Event} → IsValid q → Reach o q es s → IsValid s
  Reach-IsValid h here = h
  Reach-IsValid h (next r st) = Step-IsValid o st (Reach-IsValid h r)

  Reach-fifo :
      (pid : String) {q s : Queue W} {es : List Event}
      → IsValid q
      → Reach o q es s
      → waiting pid q ++ queued_for pid es ≡ printed_for pid es ++ waiting pid s
  Reach-fifo pid {q} h here = append-nil (waiting pid q)
  Reach-fifo pid {q} h (next {es} {es'} {r} {s} run st) = cc (
    queued_for-append pid es es',
    printed_for-append pid es es',
    append_assoc (printed_for pid es) (printed_for pid es') (waiting pid s),
    waiting-Step pid (Reach-IsValid h run) st,
    append_assoc (printed_for pid es) (waiting pid r) (queued_for pid es'),
    Reach-fifo pid h run,
    append_assoc (waiting pid q) (queued_for pid es) (queued_for pid es'),
  )

  new_queue-IsValid : (world : W) (retention : ℕ) → IsValid (new_queue world retention)
  unfolding new_queue lookup
  new_queue-IsValid world retention = record {
    workers = λ pid w e. absurd (empty e);
    under_way = λ j e. absurd (nothing e);
  }
    where
      empty : {w : Worker} → none ≡ some w → ⊥
      empty e = cc e

  -- Order: in every run of a new queue, with submissions, closing and the workers' rounds in any
  -- order, the jobs queued for a printer are those printed for it followed by those in its
  -- channel, in one order: nothing is lost, doubled or overtaken between channel and printer. And for
  -- the printed jobs, in this order and for no others, the driver was called for all their copies or
  -- up to the first error, and the sink got their four reports; besides only the clock was read.
  pub fifo :
      (world : W) (retention : ℕ) (pid : String) {s : Queue W} {es : List Event}
      → Reach o (new_queue world retention) es s
      → (queued_for pid es ≡ printed_for pid es ++ waiting pid s)
        × History o world es s.reports s.world
  unfolding new_queue lookup
  fifo world retention pid r =
      (Reach-fifo pid (new_queue-IsValid world retention) r, new_queue-History o world retention r)

  -- Routing: in every run of a new queue each channel holds 64 jobs at most, each of them valid
  -- and addressed to the printer of that channel.
  pub channels-IsValid :
      (world : W) (retention : ℕ) {s : Queue W} {es : List Event}
      → Reach o (new_queue world retention) es s
      → IsValid s
  channels-IsValid world retention r = Reach-IsValid (new_queue-IsValid world retention) r
