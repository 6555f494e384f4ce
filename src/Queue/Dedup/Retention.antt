-- ===== src/Queue/Dedup/Retention.antt =====
-- dedup.go: how long a processed job is remembered.
use brother_connect.Base.{
  ℕ, ◌+◌, ◌-◌, ◌≤◌, ◌≡◌, refl, ◌∙◌, Bool, true, false, ◌&&◌, String, str_eq, str_eq_iff, lookup,
  lookup-insert, Option, none, some, List, [], ◌∷◌, All, arith, leb, if◌then◌else◌, Bool-cases,
  Option-cases, inl, inr,
}
use brother_connect.Queue.Dedup.{DedupStore, prune, is_some, seen_recently, record_processed}
use brother_connect.Queue.Dedup.Memory.{
  IsValid, processed_at, fresh, prune-IsValid, record_processed-IsValid, processed_at-prune,
}

-- What `record` writes: the pair's time is now, that of every other pair is as before.
pub processed_at-record_processed :
    (d : DedupStore) (now : ℕ) (pid jid pid' jid' : String)
    → processed_at (record_processed d now pid jid) pid' jid'
      ≡ (if str_eq pid pid' && str_eq jid jid' then some now else processed_at d pid' jid')
unfolding processed_at record_processed
processed_at-record_processed d now pid jid pid' jid' =
    rw (lookup-insert pid pid') (elim (Bool-cases (str_eq pid pid')) [
      | inl e ↦ rw (e, lookup-insert jid jid') (rw ((str_eq_iff pid pid').0 e) refl)
      | inr e ↦ rw e refl
    ])

-- The pair was processed, and no longer ago than the retention.
abbrev pub within : ℕ → ℕ → Option ℕ → Bool
within retention now none = false
within retention now (some at) = leb now (at + retention)

fresh-within :
    (retention now : ℕ) (o : Option ℕ)
    → fresh (now - retention) o ≡ (if within retention now o then o else none)
fresh-within retention now none = refl
fresh-within retention now (some at) = ground arith

is_some-fresh :
    (retention now : ℕ) (o : Option ℕ)
    → is_some (fresh (now - retention) o) ≡ within retention now o
is_some-fresh retention now none = refl
is_some-fresh retention now (some at) = ground arith

seen_recently-processed_at :
    (d : DedupStore) (now : ℕ) (pid jid : String)
    → (seen_recently d now pid jid).1 ≡ is_some (processed_at (prune d now) pid jid)
unfolding seen_recently processed_at
seen_recently-processed_at d now pid jid = elim (Option-cases (lookup pid (prune d now).seen)) [
  | inl e ↦ rw (e, seen_recently) (unfold lookup in refl)
  | inr (m, e) ↦ rw (e, seen_recently)
]

-- `seenRecently` answers exactly whether the pair was processed at most the retention ago, and
-- its pruning forgets the pairs of before that window and nothing else.
pub seen_recently_exact :
    (d : DedupStore) (now : ℕ) (pid jid : String)
    → IsValid d
    → ((seen_recently d now pid jid).1 ≡ within d.retention now (processed_at d pid jid))
      × ((pid' jid' : String)
          → processed_at (seen_recently d now pid jid).0 pid' jid' ≡ (
              if within d.retention now (processed_at d pid' jid')
              then processed_at d pid' jid'
              else none))
seen_recently_exact d now pid jid h = (
  seen_recently-processed_at d now pid jid
      ∙ rw (processed_at-prune d now pid jid h)
          (is_some-fresh d.retention now (processed_at d pid jid)),
  λ pid' jid'.
      unfold seen_recently in
      (processed_at-prune d now pid' jid' h
        ∙ fresh-within d.retention now (processed_at d pid' jid')),
)

-- What other goroutines may do with the store, each at its time.
pub data Access : Type 0 where
  ask : ℕ → String → String → Access
  note : ℕ → String → String → Access

abbrev pub time_of : Access → ℕ
time_of (ask now pid jid) = now
time_of (note now pid jid) = now

abbrev pub access : DedupStore → Access → DedupStore
access d (ask now pid jid) = (seen_recently d now pid jid).0
access d (note now pid jid) = record_processed d now pid jid

abbrev pub access_all : DedupStore → List Access → DedupStore
access_all d [] = d
access_all d (a ∷ more) = access_all (access d a) more

-- The pair was processed at `since` or later.
abbrev IsRemembered : DedupStore → String → String → ℕ → Type 0
IsRemembered d pid jid since = (at : ℕ) × (since ≤ at) × (processed_at d pid jid ≡ some at)

retention-access : (d : DedupStore) (a : Access) → (access d a).retention ≡ d.retention
unfolding seen_recently prune record_processed
retention-access d (ask now pid jid) = refl
retention-access d (note now pid jid) = refl

access-IsValid : (d : DedupStore) (a : Access) → IsValid d → IsValid (access d a)
unfolding seen_recently
access-IsValid d (ask now pid jid) h = prune-IsValid d now h
access-IsValid d (note now pid jid) h = record_processed-IsValid d now pid jid h

access-IsRemembered :
    (d : DedupStore) (a : Access) (pid jid : String) (since : ℕ)
    → IsValid d
    → since ≤ time_of a
    → time_of a ≤ since + d.retention
    → IsRemembered d pid jid since
    → IsRemembered (access d a) pid jid since
access-IsRemembered d (ask now p j) pid jid since h lo hi (at, le, e) =
    (at, le, (seen_recently_exact d now p j h).1 pid jid ∙ rw e (ground arith))
access-IsRemembered d (note now p j) pid jid since h lo hi (at, le, e) =
    elim (Bool-cases (str_eq p pid && str_eq j jid)) [
      | inl same ↦ (now, lo, processed_at-record_processed d now p j pid jid ∙ rw same)
      | inr apart ↦ (at, le, processed_at-record_processed d now p j pid jid ∙ rw apart e)
    ]

access_all-IsRemembered :
    (d : DedupStore) (accesses : List Access) (pid jid : String) (since : ℕ)
    → IsValid d
    → All (λ a. (since ≤ time_of a) × (time_of a ≤ since + d.retention)) accesses
    → IsRemembered d pid jid since
    → IsValid (access_all d accesses)
      × IsRemembered (access_all d accesses) pid jid since
      × ((access_all d accesses).retention ≡ d.retention)
access_all-IsRemembered d [] pid jid since h times r = (h, r, refl)
access_all-IsRemembered d (a ∷ more) pid jid since h times r =
    let (valid, known, same) =
      access_all-IsRemembered (access d a) more pid jid since (access-IsValid d a h)
        (rw (retention-access d a) times.1)
        (access-IsRemembered d a pid jid since h times.0.0 times.0.1 r) in
    (valid, known, same ∙ retention-access d a)

-- A job recorded as processed is a duplicate for the whole retention: whatever other questions
-- and records come in between, at times from then up to the end of the window, the question
-- whether it was seen is answered with true until the retention has passed.
pub record_processed_remembered :
    (d : DedupStore) (since now : ℕ) (pid jid : String) (accesses : List Access)
    → IsValid d
    → All (λ a. (since ≤ time_of a) × (time_of a ≤ since + d.retention)) accesses
    → now ≤ since + d.retention
    → (seen_recently (access_all (record_processed d since pid jid) accesses) now pid jid).1 ≡ true
record_processed_remembered d since now pid jid accesses h times le =
    let d' = record_processed d since pid jid in
    let noted : IsRemembered d' pid jid since = (
      since,
      omega arith,
      processed_at-record_processed d since pid jid pid jid
          ∙ rw ((str_eq_iff pid pid).1 refl, (str_eq_iff jid jid).1 refl),
    ) in
    let (valid, (at, lo, e), same) =
      access_all-IsRemembered d' accesses pid jid since (record_processed-IsValid d since pid jid h)
        (unfold record_processed in times) noted in
    (seen_recently_exact (access_all d' accesses) now pid jid valid).0
    ∙ rw (e, same) (unfold record_processed in ground arith)
