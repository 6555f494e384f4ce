-- ===== src/Queue/Submit/Steps.antt =====
-- queue.go: what holds of the channels in every run.
use mathlib.Core.Option
use brother_connect.Base.{
  ◌≤◌, ◌≡◌, refl, Bool, true, false, String, str_eq, str_eq_iff, lookup, insert, lookup-insert,
  none, some, List, [], ◌∷◌, ◌++◌, All, length, arith, Option-cases, Bool-cases, inl, inr,
}
use brother_connect.Job.Validation.{Job, InvalidJob, validate}
use brother_connect.Queue.Dedup.{seen_recently}
use brother_connect.Queue.Worker.{Outside}
use brother_connect.Queue.Submit.{
  Worker, Queue, SubmitResult, accepted, duplicate, rejected, invalid, queue_closed, capacity,
  new_worker, ensure_worker, submit, stop_all,
}

-- A job that passed `Validate` and is addressed to the printer.
abbrev pub IsFor : String → Job → Type 0
IsFor pid j = (j.printer_id ≡ pid) × (validate j ≡ none)

pub record IsWorking (pid : String) (closed : Bool) (w : Worker) : Type 0 where
  pub name : w.printer_id ≡ pid
  pub room : length w.jobs ≤ capacity
  pub mine : All (IsFor pid) w.jobs
  pub stopped : w.done ≡ closed

-- The workers by printer.
abbrev pub AllWorking : Bool → List (String × Worker) → Type 0
AllWorking closed ws = (pid : String) (w : Worker) → lookup pid ws ≡ some w → IsWorking pid closed w

pub record IsValid {W : Type 0} (q : Queue W) : Type 0 where
  pub workers : AllWorking q.closed q.workers
  pub under_way :
      (j : Job)
      → q.handing ≡ some j
      → (validate j ≡ none) × (w : Worker) × (lookup j.printer_id q.workers ≡ some w)

hit : (w : Worker) {w' : Worker} → some w ≡ some w' → w ≡ w'
hit w e = cc e

pub insert-AllWorking :
    (pid : String) (w : Worker) (closed : Bool) (ws : List (String × Worker))
    → IsWorking pid closed w
    → AllWorking closed ws
    → AllWorking closed (insert pid w ws)
insert-AllWorking pid w closed ws h all pid' w' e = elim (Bool-cases (str_eq pid pid')) [
  | inl same ↦ rw (← (str_eq_iff pid pid').0 same, ← hit w ((rw (lookup-insert, same) at e))) h
  | inr apart ↦ all pid' w' (rw (lookup-insert, apart) at e)
]

abbrev pub stopped : Worker → Worker
stopped w = record w { done = true }

pub lookup-stop_all :
    (pid : String) (ws : List (String × Worker))
    → lookup pid (stop_all ws) ≡ Option.map stopped (lookup pid ws)
unfolding lookup stop_all
lookup-stop_all pid [] = refl
lookup-stop_all pid ((k, w) ∷ ws) = ground (arith, lookup-stop_all pid ws)

ensure_worker-AllWorking :
    (pid : String) (ws : List (String × Worker))
    → AllWorking false ws
    → AllWorking false (ensure_worker pid ws)
unfolding ensure_worker
ensure_worker-AllWorking pid ws h = elim (Option-cases (lookup pid ws)) [
  | inl e ↦
      rw (e, ensure_worker)
        (insert-AllWorking pid (new_worker pid) false ws
          (record { name = refl; room = omega arith; mine = tt; stopped = refl }) h)
  | inr (w, e) ↦ rw (e, ensure_worker) h
]

lookup-ensure_worker :
    (pid : String) (ws : List (String × Worker))
    → (w : Worker) × (lookup pid (ensure_worker pid ws) ≡ some w)
unfolding ensure_worker
lookup-ensure_worker pid ws = elim (Option-cases (lookup pid ws)) [
  | inl e ↦
      (new_worker pid, rw (e, ensure_worker) (rw lookup-insert (rw ((str_eq_iff pid pid).1 refl))))
  | inr (w, e) ↦ (w, rw (e, ensure_worker) e)
]

pub stop_all-AllWorking :
    (ws : List (String × Worker)) → AllWorking false ws → AllWorking true (stop_all ws)
stop_all-AllWorking ws h pid w e = elim (Option-cases (lookup pid ws)) [
  | inl none_there ↦ ground (arith, lookup-stop_all pid ws)
  | inr (v, there) ↦
      let same : w ≡ stopped v = ground (arith, lookup-stop_all pid ws) in
      let k = h pid v there in
      rw same (record { name = k.name; room = k.room; mine = k.mine; stopped = refl })
]

pub All-snoc :
    (pid : String) (js : List Job) (j : Job)
    → All (IsFor pid) js
    → IsFor pid j
    → All (IsFor pid) (js ++ (j ∷ []))
All-snoc pid [] j h k = (k, tt)
All-snoc pid (x ∷ js) j h k = (h.0, All-snoc pid js j h.1 k)

module _ {W : Type 0} (o : Outside W) where
  -- The queue after the question whether the job was seen, and the answer.
  abbrev pub asked : Queue W → Job → Queue W
  asked q j = record q {
    world = (o.read_clock q.world).1;
    dedup = (seen_recently q.dedup (o.read_clock q.world).0 j.printer_id j.id).0;
  }

  abbrev pub was_seen : Queue W → Job → Bool
  was_seen q j = (seen_recently q.dedup (o.read_clock q.world).0 j.printer_id j.id).1

  abbrev pub admitted : Queue W → Job → Queue W
  admitted q j = record (asked q j) {
    workers = ensure_worker j.printer_id q.workers;
    handing = some j;
  }

  -- The four answers of `submit` and what each does to the queue.
  pub data Answer (q : Queue W) (j : Job) : Queue W × SubmitResult → Type 0 where
    refused : (e : InvalidJob) → validate j ≡ some e → Answer q j (q, rejected (invalid e))
    known : validate j ≡ none → was_seen q j ≡ true → Answer q j (asked q j, duplicate)
    late :
        validate j ≡ none
        → was_seen q j ≡ false
        → q.closed ≡ true
        → Answer q j (asked q j, rejected queue_closed)
    taken :
        validate j ≡ none
        → was_seen q j ≡ false
        → q.closed ≡ false
        → Answer q j (admitted q j, accepted)

  pub by_path :
      {q : Queue W} {j : Job} {r r' : Queue W × SubmitResult}
      → Answer q j r
      → r' ≡ r
      → Answer q j r'
  by_path a e = rw e a

  pub submit-Answer : (q : Queue W) (j : Job) → Answer q j (submit o q j)
  unfolding submit
  submit-Answer q j = elim (Option-cases (validate j)) [
    | inr (e, h) ↦ rw (h, submit) (refused e h)
    | inl h ↦ elim (Bool-cases (was_seen q j)) [
      | inl seen ↦ rw (h, submit) (rw seen (known h seen))
      | inr new ↦ elim (Bool-cases q.closed) [
        | inl shut ↦ by_path (late h new shut) (ground arith)
        | inr open_ ↦ by_path (taken h new open_) (ground arith)
      ]
    ]
  ]

  taken-IsValid :
      (q : Queue W) (j : Job)
      → validate j ≡ none
      → q.closed ≡ false
      → IsValid q
      → IsValid (admitted q j)
  taken-IsValid q j ok open_ h =
      let ws = ensure_worker-AllWorking j.printer_id q.workers (rw open_ at h.workers) in
      record {
        workers = rw (← open_) at ws;
        under_way = λ j' e.
            let (w, there) = lookup-ensure_worker j.printer_id q.workers in
            rw (← hit_job e) (ok, w, there);
      }
    where
      hit_job : {j' : Job} → some j ≡ some j' → j ≡ j'
      hit_job e = cc e

  pub Answer-IsValid :
      {q : Queue W} {j : Job} {r : Queue W × SubmitResult} → Answer q j r → IsValid q → IsValid r.0
  Answer-IsValid (refused e v) h = h
  Answer-IsValid (known v s) h = record { workers = h.workers; under_way = h.under_way }
  Answer-IsValid (late v s c) h = record { workers = h.workers; under_way = h.under_way }
  Answer-IsValid {q} {j} (taken v s c) h = taken-IsValid q j v c h
