-- ===== src/Queue/Submit/Order.antt =====
-- queue.go and worker.go: order and routing of jobs, over every run of the system.
use mathlib.Core.Option
use brother_connect.Base.{
  ◌<◌, ◌≡◌, refl, ap, ◌∙◌, true, false, String, str_eq, lookup, insert, lookup-insert, Option, none,
  some, List, [], ◌∷◌, ◌++◌, All, length, length-append, if◌then◌else◌, arith, Bool-cases, inl, inr,
}
use brother_connect.Job.Validation.{Job}
use brother_connect.Queue.Worker.{Outside}
use brother_connect.Queue.Submit.{
  Worker, Queue, capacity, stop_all, close, work, put, Event, queued, printed, Step, submitting,
  hand, give_up, working, closing,
}
use brother_connect.Queue.Submit.Steps.{
  IsFor, IsValid, insert-AllWorking, stop_all-AllWorking, All-snoc, stopped, lookup-stop_all,
  submit-Answer, Answer-IsValid,
}

lookup-insert-some :
    (pid pid' : String) (w v : Worker) (ws : List (String × Worker))
    → lookup pid' ws ≡ some v
    → (u : Worker) × (lookup pid' (insert pid w ws) ≡ some u)
lookup-insert-some pid pid' w v ws h = elim (Bool-cases (str_eq pid pid')) [
  | inl e ↦ (w, lookup-insert pid pid' w ws ∙ rw e)
  | inr e ↦ (v, lookup-insert pid pid' w ws ∙ rw e h)
]

-- The jobs in the channel of a printer.
abbrev pub jobs_of : Option Worker → List Job
jobs_of none = []
jobs_of (some w) = w.jobs

abbrev pub waiting : {W : Type 0} → String → Queue W → List Job
waiting pid q = jobs_of (lookup pid q.workers)

abbrev pub if_for : String → Job → List Job → List Job
if_for pid j js = if str_eq j.printer_id pid then j ∷ js else js

-- The jobs of a printer that were put into a channel, and those that were processed, in order.
abbrev pub queued_for : String → List Event → List Job
queued_for pid [] = []
queued_for pid (queued j ∷ es) = if_for pid j (queued_for pid es)
queued_for pid (printed j ∷ es) = queued_for pid es

abbrev pub printed_for : String → List Event → List Job
printed_for pid [] = []
printed_for pid (queued j ∷ es) = printed_for pid es
printed_for pid (printed j ∷ es) = if_for pid j (printed_for pid es)

pub queued_for-append :
    (pid : String) (es fs : List Event)
    → queued_for pid (es ++ fs) ≡ queued_for pid es ++ queued_for pid fs
queued_for-append pid [] fs = refl
queued_for-append pid (queued j ∷ es) fs = ground (arith, queued_for-append pid es fs)
queued_for-append pid (printed j ∷ es) fs = queued_for-append pid es fs

pub printed_for-append :
    (pid : String) (es fs : List Event)
    → printed_for pid (es ++ fs) ≡ printed_for pid es ++ printed_for pid fs
printed_for-append pid [] fs = refl
printed_for-append pid (queued j ∷ es) fs = printed_for-append pid es fs
printed_for-append pid (printed j ∷ es) fs = ground (arith, printed_for-append pid es fs)

pub nothing : {j : Job} → none ≡ some j → ⊥
nothing e = cc e

put-IsValid :
    {W : Type 0} (q : Queue W) (j : Job) (w : Worker)
    → IsValid q
    → q.handing ≡ some j
    → lookup j.printer_id q.workers ≡ some w
    → length w.jobs < capacity
    → IsValid (put q j w)
unfolding put
put-IsValid q j w h e there room =
    let k = h.workers j.printer_id w there in
    record {
      workers =
          insert-AllWorking j.printer_id (record w { jobs = w.jobs ++ (j ∷ []) }) q.closed q.workers
            (record {
              name = k.name;
              room = omega (arith, length-append w.jobs (j ∷ []));
              mine = All-snoc j.printer_id w.jobs j k.mine (refl, (h.under_way j e).0);
              stopped = k.stopped;
            })
            h.workers;
      under_way = λ j' e'. absurd (nothing e');
    }

module _ {W : Type 0} (q : Queue W) where
  pub close_closed : q.closed ≡ true → close q ≡ q
  unfolding close
  close_closed e = ground arith

  pub close_open :
      q.closed ≡ false → close q ≡ record q { closed = true; workers = stop_all q.workers }
  unfolding close
  close_open e = ground arith

close-IsValid : {W : Type 0} (q : Queue W) → IsValid q → IsValid (close q)
close-IsValid q h = elim (Bool-cases q.closed) [
  | inl e ↦ rw (close_closed q e) h
  | inr e ↦ rw (close_open q e) (record {
    workers = stop_all-AllWorking q.workers (rw e at h.workers);
    under_way = λ j e'.
        let (ok, w, there) = h.under_way j e' in
        (ok, stopped w, lookup-stop_all j.printer_id q.workers ∙ ap (Option.map stopped) there);
  })
]

module _ {W : Type 0} (o : Outside W) where
  work-IsValid :
      (q : Queue W) (pid : String) (w : Worker) (j : Job) (rest : List Job)
      → IsValid q
      → lookup pid q.workers ≡ some w
      → w.jobs ≡ j ∷ rest
      → IsValid (work o q pid w j rest)
  unfolding work
  work-IsValid q pid w j rest h there e =
      let k = h.workers pid w there in
      let mine : All (IsFor pid) (j ∷ rest) = rw e at k.mine in
      record {
        workers =
            insert-AllWorking pid (record w { jobs = rest }) q.closed q.workers
              (record {
                name = k.name;
                room = omega (arith, k.room, ap length e);
                mine = mine.1;
                stopped = k.stopped;
              })
              h.workers;
        under_way = λ j' e'.
            let (ok, v, found) = h.under_way j' e' in
            let (u, still) =
              lookup-insert-some pid j'.printer_id (record w { jobs = rest }) v q.workers found in
            (ok, u, still);
      }

  pub Step-IsValid : {q s : Queue W} {es : List Event} → Step o q es s → IsValid q → IsValid s
  Step-IsValid {q} (submitting j idle) h = Answer-IsValid o (submit-Answer o q j) h
  Step-IsValid {q} (hand j w e there room) h = put-IsValid q j w h e there room
  Step-IsValid (give_up j w e there done) h = record {
    workers = h.workers;
    under_way = λ j' e'. absurd (nothing e');
  }
  Step-IsValid {q} (working pid w j rest there e) h = work-IsValid q pid w j rest h there e
  Step-IsValid {q} closing h = close-IsValid q h
