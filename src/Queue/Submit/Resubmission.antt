-- ===== src/Queue/Submit/Resubmission.antt =====
-- queue.go: a job that is delivered again before its first copy is finished.
use brother_connect.Base.{
  ℕ, ◌<◌, ◌≡◌, ◌≢◌, refl, ap, ◌∙◌, false, String, str_eq_iff, lookup, lookup-insert, none, some,
  List, [], ◌∷◌, ◌++◌, length, arith, Option-cases, inl, inr,
}
use brother_connect.Job.Validation.{Job, validate}
use brother_connect.Queue.Dedup.{DedupStore, new_dedup_store, seen_recently, prune, prune_seen}
use brother_connect.Queue.Dedup.Memory.{processed_at}
use brother_connect.Queue.Worker.{Outside, Report}
use brother_connect.Queue.Worker.Copies.{IsProcessed}
use brother_connect.Queue.Submit.History.{work-IsProcessed}
use brother_connect.Queue.Worker.Reports.{reports_of}
use brother_connect.Queue.Submit.{
  Worker, new_worker, capacity, Queue, accepted, submit, ensure_worker, put, work, Event, queued,
  printed, Step, submitting, hand, working, Reach, here, next, new_queue,
}
use brother_connect.Queue.Submit.Order.{jobs_of, waiting}
use brother_connect.Queue.Submit.Steps.{admitted, was_seen}

-- An open queue with no memory yet, whose worker for the job's printer has some jobs waiting.
record IsFresh {W : Type 0} (j : Job) (jobs : List Job) (q : Queue W) : Type 0 where
  idle : q.handing ≡ none
  is_open : q.closed ≡ false
  unseen : q.dedup.seen ≡ []
  waits : waiting j.printer_id q ≡ jobs

seen_nothing :
    (d : DedupStore) (now : ℕ) (pid jid : String)
    → d.seen ≡ []
    → ((seen_recently d now pid jid).1 ≡ false) × ((seen_recently d now pid jid).0.seen ≡ [])
unfolding seen_recently prune prune_seen lookup
seen_nothing d now pid jid e = ground arith

ensured :
    (pid : String) (ws : List (String × Worker))
    → (w : Worker) × (lookup pid (ensure_worker pid ws) ≡ some w)
      × (w.jobs ≡ jobs_of (lookup pid ws))
unfolding ensure_worker
ensured pid ws = elim (Option-cases (lookup pid ws)) [
  | inl e ↦ (new_worker pid, lookup-new pid ws e, rw e)
  | inr (w, e) ↦ (w, rw (e, ensure_worker) e, rw e)
]
  where
    lookup-new :
        (pid : String) (ws : List (String × Worker))
        → lookup pid ws ≡ none
        → lookup pid (ensure_worker pid ws) ≡ some (new_worker pid)
    lookup-new pid ws e =
        rw (e, ensure_worker)
          (lookup-insert pid pid (new_worker pid) ws ∙ rw ((str_eq_iff pid pid).1 refl))

module _ {W : Type 0} (o : Outside W) where
  -- `Submit` and the hand-over of one job.
  accepts :
      (q : Queue W) (j : Job)
      → validate j ≡ none
      → was_seen o q j ≡ false
      → q.closed ≡ false
      → submit o q j ≡ (admitted o q j, accepted)
  unfolding submit
  accepts q j valid new is_open = ground arith

  deliver :
      (j : Job) (jobs : List Job) (q : Queue W)
      → validate j ≡ none
      → length jobs < capacity
      → IsFresh j jobs q
      → (s : Queue W) × IsFresh j (jobs ++ (j ∷ [])) s
        × (s.reports ≡ q.reports)
        × ((p : Queue W) (es : List Event)
            → Reach o p es q
            → Reach o p ((es ++ []) ++ (queued j ∷ [])) s)
  deliver j jobs q valid room h =
      let (new, nothing) =
        seen_nothing q.dedup (o.read_clock q.world).0 j.printer_id j.id h.unseen in
      let (w, there, js) = ensured j.printer_id q.workers in
      let full : Worker = record w { jobs = w.jobs ++ (j ∷ []) } in
      let q₁ = admitted o q j in
      let asks : Step o q [] (submit o q j).0 = submitting j h.idle in
      (
        put q₁ j w,
        record {
          idle = unfold put in refl;
          is_open = unfold put in h.is_open;
          unseen = unfold put in nothing;
          waits =
              unfold put in
              rw
                (
                  lookup-insert j.printer_id j.printer_id full q₁.workers,
                  (str_eq_iff j.printer_id j.printer_id).1 refl,
                  js,
                  h.waits,
                )
                refl;
        },
        unfold put in refl,
        λ p es run.
            next (next run (rw (accepts q j valid new h.is_open) at asks))
              (hand j w refl there (rw (js, h.waits) room)),
      )

  print_one :
      (j : Job) (jobs : List Job) (q : Queue W)
      → waiting j.printer_id q ≡ j ∷ jobs
      → (s : Queue W) × (waiting j.printer_id s ≡ jobs)
        × (s.reports ≡ q.reports ++ reports_of o j q.world)
        × IsProcessed o j q.world (reports_of o j q.world) s.world
        × (processed_at s.dedup j.printer_id j.id ≢ none)
        × ((p : Queue W) (es : List Event) → Reach o p es q → Reach o p (es ++ (printed j ∷ [])) s)
  print_one j jobs q e = elim (Option-cases (lookup j.printer_id q.workers)) [
    | inl missing ↦ absurd (nothing (rw missing at e))
    | inr (w, there) ↦
        let js : w.jobs ≡ j ∷ jobs = rw there at e in
        let (told, done, kept) = work-IsProcessed o q j.printer_id w j jobs in
        (
          work o q j.printer_id w j jobs,
          unfold work in
              (rw (
                lookup-insert j.printer_id j.printer_id (record w { jobs = jobs }) q.workers,
                (str_eq_iff j.printer_id j.printer_id).1 refl,
              )),
          told,
          done,
          kept,
          λ p es run. next run (working j.printer_id w j jobs there js),
        )
  ]
    where
      nothing : [] ≡ j ∷ jobs → ⊥
      nothing e = cc e

  -- Suppression has a gap: a valid job that is delivered twice before its first copy is printed
  -- is queued twice and processed twice, whatever the retention, the clock and the driver are. After
  -- the first time it has made its four reports and is remembered as processed; all the same the
  -- second time the driver is called again for its copies, and there are four more reports.
  pub resubmitted_twice :
      (world : W) (retention : ℕ) (j : Job)
      → validate j ≡ none
      → (r s : Queue W) × Reach o
          (new_queue world retention)
          (queued j ∷ queued j ∷ printed j ∷ [])
          r
        × ((w : W) × IsProcessed o j w r.reports r.world)
        × (processed_at r.dedup j.printer_id j.id ≢ none)
        × Reach o r (printed j ∷ []) s
        × ((more : List Report) × (s.reports ≡ r.reports ++ more)
            × IsProcessed o j r.world more s.world)
  resubmitted_twice world retention j valid =
      let q = new_queue world retention in
      let fresh : IsFresh j [] q =
        unfold new_queue new_dedup_store lookup in
        record { idle = refl; is_open = refl; unseen = refl; waits = refl } in
      let (q₁, fresh₁, told₁, run₁) = deliver j [] q valid (omega arith) fresh in
      let (q₂, fresh₂, told₂, run₂) = deliver j (j ∷ []) q₁ valid (omega arith) fresh₁ in
      let (r, waits₃, told₃, done₃, kept₃, run₃) = print_one j (j ∷ []) q₂ fresh₂.waits in
      let (s, waits₄, told₄, done₄, kept₄, run₄) = print_one j [] r waits₃ in
      let unreported : q₂.reports ≡ [] = told₂ ∙ told₁ ∙ (unfold new_queue in refl) in
      let first : r.reports ≡ reports_of o j q₂.world =
        told₃ ∙ ap (λ rs. rs ++ reports_of o j q₂.world) unreported in
      (
        r,
        s,
        run₃ q _ (run₂ q _ (run₁ q [] here)),
        (q₂.world, rw first done₃),
        kept₃,
        run₄ r [] here,
        (reports_of o j r.world, told₄, done₄),
      )
