-- ===== src/Bridge/Turns/Invariant.antt =====
-- bridge.go: what holds of the recent jobs whatever happens.
use brother_connect.Base.{
  ℕ, zero, suc, ◌-◌, ◌≤◌, ltb, ◌≡◌, refl, Bool, true, false, Bool-cases, inl, inr, Option, none,
  some, str_eq, List, [], ◌∷◌, length, length-drop, drop, All, arith, not, ◌&&◌,
}
use brother_connect.Bridge.Records.{JobRecord, inherit, place, record_job, max_job_records}
use brother_connect.Bridge.State.{Bridge, record_printer, Settings, snapshot, new_bridge}
use brother_connect.Bridge.Messages.{
  on_job_transition, report_all, deliver_job, handle_job_deliver, on_message, work_and_report,
}
use brother_connect.Bridge.Discovery.{on_event, DriverAnswers, is_present, register, shown_as}
use brother_connect.Bridge.Turns.{
  Turn, message_arrives, worker_prints, printer_changes, connection_changes, job_handed,
  job_dropped, if_idle, take_turn, take_turns,
}
use brother_connect.Job.Validation.{Job}
use brother_connect.Printer.Types.{DiscoveryEvent}
use brother_connect.Protocol.{Codec, Envelope, decode_job, type_job_deliver}
use brother_connect.Queue.Submit.{work}
use brother_connect.Queue.Worker.{Outside, Report}
use brother_connect.Transport.Outbox.{Outbox}

abbrev pub IsUnnamed : JobRecord → Type 0
IsUnnamed r = r.printer_id ≡ ""

All-drop {ℓ κ} : {A : Type ℓ} (P : A → Type κ) (n : ℕ) (xs : List A) → All P xs → All P (drop n xs)
All-drop P zero xs a = a
All-drop P (suc n) [] a = a
All-drop P (suc n) (x ∷ xs) (p, a) = All-drop P n xs a

inherit-IsUnnamed : (last r : JobRecord) → IsUnnamed last → IsUnnamed r → IsUnnamed (inherit last r)
unfolding inherit
inherit-IsUnnamed last r a b = ground (arith, a, b)

place-IsUnnamed :
    (jobs : List JobRecord) (r : JobRecord)
    → All IsUnnamed jobs
    → IsUnnamed r
    → All IsUnnamed (place jobs r)
unfolding place
place-IsUnnamed [] r a b = (b, tt)
place-IsUnnamed (last ∷ []) r (a, t) b = elim (Bool-cases (str_eq last.job_id r.job_id)) [
  | inl e ↦ rw e (inherit-IsUnnamed last r a b, tt)
  | inr f ↦ rw f (a, (inherit-IsUnnamed last r a b, tt))
]
place-IsUnnamed (first ∷ second ∷ more) r (a, others) b =
    (a, place-IsUnnamed (second ∷ more) r others b)

-- At most as many records as are kept, and none of them has a printer.
abbrev pub IsShort : List JobRecord → Type 0
IsShort jobs = (length jobs ≤ max_job_records) × All IsUnnamed jobs

record_job-IsShort :
    (jobs : List JobRecord) (r : JobRecord)
    → All IsUnnamed jobs
    → IsUnnamed r
    → IsShort (record_job jobs r)
unfolding record_job
record_job-IsShort jobs r a b = elim (Bool-cases (ltb max_job_records (length (place jobs r)))) [
  | inl t ↦ rw t (
    ground (arith, length-drop (length (place jobs r) - max_job_records) (place jobs r)),
    All-drop IsUnnamed (length (place jobs r) - max_job_records) (place jobs r)
        (place-IsUnnamed jobs r a b),
  )
  | inr f ↦ rw f (ground arith, place-IsUnnamed jobs r a b)
]

module _ {W : Type 0} (codec : Codec) (o : Outside W) where
  report_all-IsShort :
      (reports : List Report) (b : Bridge W) (out : Outbox)
      → IsShort b.jobs
      → IsShort (report_all codec reports (b, out)).0.jobs
  unfolding report_all on_job_transition
  report_all-IsShort [] b out a = a
  report_all-IsShort (r ∷ more) b out (n, a) =
      report_all-IsShort more _ _ (record_job-IsShort b.jobs _ a refl)

  deliver_job-jobs :
      (j : Option Job) (b : Bridge W) (out : Outbox) → (deliver_job codec o j b out).0.jobs ≡ b.jobs
  deliver_job-jobs none b out = refl
  deliver_job-jobs (some j) b out = refl

  on_message-jobs :
      (e : Envelope) (b : Bridge W) (out : Outbox) → (on_message codec o e (b, out)).0.jobs ≡ b.jobs
  unfolding on_message handle_job_deliver
  on_message-jobs e b out = elim (Bool-cases (str_eq e.type type_job_deliver)) [
    | inl t ↦ rw t (deliver_job-jobs (decode_job codec e) b out)
    | inr f ↦ rw f refl
  ]

  on_event-jobs :
      (d : DriverAnswers) (ev : DiscoveryEvent) (b : Bridge W) (out : Outbox)
      → (on_event codec d ev (b, out)).0.jobs ≡ b.jobs
  unfolding on_event record_printer
  on_event-jobs d ev b out = by_presence (is_present ev.kind) (is_present ev.kind && d.is_registrar)
    where
      by_presence :
          (present registers : Bool)
          → (record_printer
              (shown_as present d ev.printer)
              (not present)
              (register registers ev.printer b)).jobs
            ≡ b.jobs
      by_presence false false = refl
      by_presence false true = refl
      by_presence true false = refl
      by_presence true true = refl

  take_turn-IsShort :
      (t : Turn) (b : Bridge W) (out : Outbox)
      → IsShort b.jobs
      → IsShort (take_turn codec o t (b, out)).0.jobs
  unfolding take_turn work_and_report
  take_turn-IsShort (message_arrives e) b out a =
      by_handing b.queue.handing (on_message codec o e (b, out)) (rw (on_message-jobs e b out) a)
    where
      by_handing :
          (j : Option Job) (taken : Bridge W × Outbox)
          → IsShort taken.0.jobs
          → IsShort (if_idle j taken (b, out)).0.jobs
      by_handing none taken h = h
      by_handing (some j) taken h = a
  take_turn-IsShort (worker_prints pid w j rest) b out a =
      report_all-IsShort (drop (length b.queue.reports) (work o b.queue pid w j rest).reports)
        (record b { queue = work o b.queue pid w j rest }) out a
  take_turn-IsShort (printer_changes d ev) b out a = rw (on_event-jobs d ev b out) a
  take_turn-IsShort (connection_changes up) b out a = a
  take_turn-IsShort job_handed b out a = a
  take_turn-IsShort job_dropped b out a = a

  take_turns-IsShort :
      (turns : List Turn) (b : Bridge W) (out : Outbox)
      → IsShort b.jobs
      → IsShort (take_turns codec o turns (b, out)).0.jobs
  unfolding take_turns
  take_turns-IsShort [] b out a = a
  take_turns-IsShort (t ∷ more) b out a =
      let (b', out') = take_turn codec o t (b, out) in
      take_turns-IsShort more b' out' (take_turn-IsShort t b out a)

  -- After any turns of a new bridge, the recent jobs of its snapshot are at most 20, and none of them
  -- names a printer.
  pub snapshot-IsShort :
      (settings : Settings) (world : W) (turns : List Turn) (out : Outbox)
      → IsShort (snapshot settings (take_turns codec o turns (new_bridge world, out)).0).recent_jobs
  unfolding snapshot new_bridge
  snapshot-IsShort settings world turns out =
      take_turns-IsShort turns (new_bridge world) out (omega arith, tt)
