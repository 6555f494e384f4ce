-- ===== src/Queue/Dedup/Memory.antt =====
-- dedup.go against what it stands for: a partial function from printer and job to a time.
use brother_connect.Base.{
  ℕ, ◌-◌, ◌≡◌, refl, sym, true, String, str_eq, str_eq_iff, lookup, insert, lookup-insert, Option,
  none, some, List, [], ◌∷◌, length, All, arith, ltb, ◌==◌, if◌then◌else◌, Bool-cases, inl, inr,
}
use brother_connect.Queue.Dedup.{
  ByJob, DedupStore, expire, prune_seen, prune, or_empty, record_processed,
}

-- A Go map holds a key once.
abbrev pub HasUniqueKeys {ℓ} : {V : Type ℓ} → List (String × V) → Type ℓ
HasUniqueKeys [] = Unit
HasUniqueKeys ((k, v) ∷ m) = (lookup k m ≡ none) × HasUniqueKeys m

abbrev pub IsValid : DedupStore → Type 0
IsValid d = HasUniqueKeys d.seen × All (λ entry. HasUniqueKeys entry.1) d.seen

insert-HasUniqueKeys {ℓ} :
    {V : Type ℓ} (k : String) (v : V) (m : List (String × V))
    → HasUniqueKeys m
    → HasUniqueKeys (insert k v m)
unfolding insert
insert-HasUniqueKeys k v [] h = (unfold lookup in refl, tt)
insert-HasUniqueKeys k v ((j, w) ∷ m) h = elim (Bool-cases (str_eq j k)) [
  | inl e ↦ rw e (rw (← (str_eq_iff j k).0 e) h.0, h.1)
  | inr e ↦ rw e (
    rw lookup-insert (ground (arith, str_eq_iff k j, str_eq_iff j k, h.0)),
    insert-HasUniqueKeys k v m h.1,
  )
]

-- When the pair was last processed, as far as the store knows.
unfoldable pub processed_at : DedupStore → String → String → Option ℕ
processed_at d pid jid = lookup jid (or_empty (lookup pid d.seen))

-- What pruning at `cutoff` leaves of an entry.
abbrev pub fresh : ℕ → Option ℕ → Option ℕ
fresh cutoff none = none
fresh cutoff (some at) = if ltb at cutoff then none else some at

lookup-expire :
    (cutoff : ℕ) (jid : String) (m : ByJob)
    → HasUniqueKeys m
    → lookup jid (expire cutoff m) ≡ fresh cutoff (lookup jid m)
unfolding lookup expire
lookup-expire cutoff jid [] h = refl
lookup-expire cutoff jid ((k, at) ∷ m) h =
    ground (arith, str_eq_iff k jid, lookup-expire cutoff jid m h.1, h.0)

expire-HasUniqueKeys : (cutoff : ℕ) (m : ByJob) → HasUniqueKeys m → HasUniqueKeys (expire cutoff m)
unfolding expire
expire-HasUniqueKeys cutoff [] h = h
expire-HasUniqueKeys cutoff ((k, at) ∷ m) h = elim (Bool-cases (ltb at cutoff)) [
  | inl e ↦ rw e (expire-HasUniqueKeys cutoff m h.1)
  | inr e ↦ rw e (rw (lookup-expire cutoff k m h.1, h.0) refl, expire-HasUniqueKeys cutoff m h.1)
]

-- What pruning leaves of the map of one printer.
abbrev kept : ℕ → Option ByJob → Option ByJob
kept cutoff none = none
kept cutoff (some m) = if length (expire cutoff m) == 0 then none else some (expire cutoff m)

lookup-prune_seen :
    (cutoff : ℕ) (pid : String) (seen : List (String × ByJob))
    → HasUniqueKeys seen
    → lookup pid (prune_seen cutoff seen) ≡ kept cutoff (lookup pid seen)
unfolding lookup prune_seen
lookup-prune_seen cutoff pid [] h = refl
lookup-prune_seen cutoff pid ((k, m) ∷ seen) h =
    ground (arith, str_eq_iff k pid, lookup-prune_seen cutoff pid seen h.1, h.0)

prune_seen-HasUniqueKeys :
    (cutoff : ℕ) (seen : List (String × ByJob))
    → HasUniqueKeys seen
    → HasUniqueKeys (prune_seen cutoff seen)
unfolding prune_seen
prune_seen-HasUniqueKeys cutoff [] h = h
prune_seen-HasUniqueKeys cutoff ((k, m) ∷ seen) h =
    elim (Bool-cases (length (expire cutoff m) == 0)) [
      | inl e ↦ rw e (prune_seen-HasUniqueKeys cutoff seen h.1)
      | inr e ↦ rw e (
        rw (lookup-prune_seen cutoff k seen h.1, h.0) refl,
        prune_seen-HasUniqueKeys cutoff seen h.1,
      )
    ]

All-prune_seen :
    (cutoff : ℕ) (seen : List (String × ByJob))
    → All (λ entry. HasUniqueKeys entry.1) seen
    → All (λ entry. HasUniqueKeys entry.1) (prune_seen cutoff seen)
unfolding prune_seen
All-prune_seen cutoff [] h = h
All-prune_seen cutoff ((k, m) ∷ seen) h = elim (Bool-cases (length (expire cutoff m) == 0)) [
  | inl e ↦ rw e (All-prune_seen cutoff seen h.1)
  | inr e ↦ rw e (expire-HasUniqueKeys cutoff m h.0, All-prune_seen cutoff seen h.1)
]

All-insert :
    (pid : String) (m : ByJob) (seen : List (String × ByJob))
    → HasUniqueKeys m
    → All (λ entry. HasUniqueKeys entry.1) seen
    → All (λ entry. HasUniqueKeys entry.1) (insert pid m seen)
unfolding insert
All-insert pid m [] hm h = (hm, tt)
All-insert pid m ((k, w) ∷ seen) hm h = elim (Bool-cases (str_eq k pid)) [
  | inl e ↦ rw e (hm, h.1)
  | inr e ↦ rw e (h.0, All-insert pid m seen hm h.1)
]

or_empty-HasUniqueKeys :
    (pid : String) (seen : List (String × ByJob))
    → All (λ entry. HasUniqueKeys entry.1) seen
    → HasUniqueKeys (or_empty (lookup pid seen))
unfolding lookup
or_empty-HasUniqueKeys pid [] h = tt
or_empty-HasUniqueKeys pid ((k, w) ∷ seen) h = elim (Bool-cases (str_eq k pid)) [
  | inl e ↦ rw e h.0
  | inr e ↦ rw e (or_empty-HasUniqueKeys pid seen h.1)
]

pub prune-IsValid : (d : DedupStore) (now : ℕ) → IsValid d → IsValid (prune d now)
unfolding prune
prune-IsValid d now h = (
  prune_seen-HasUniqueKeys (now - d.retention) d.seen h.0,
  All-prune_seen (now - d.retention) d.seen h.1,
)

pub record_processed-IsValid :
    (d : DedupStore) (now : ℕ) (pid jid : String)
    → IsValid d
    → IsValid (record_processed d now pid jid)
unfolding record_processed
record_processed-IsValid d now pid jid h =
    let m = insert jid now (or_empty (lookup pid d.seen)) in
    let unique = insert-HasUniqueKeys jid now _ (or_empty-HasUniqueKeys pid d.seen h.1) in
    (insert-HasUniqueKeys pid m d.seen h.0, All-insert pid m d.seen unique h.1)

lookup-or_empty-kept :
    (cutoff : ℕ) (jid : String) (o : Option ByJob)
    → HasUniqueKeys (or_empty o)
    → lookup jid (or_empty (kept cutoff o)) ≡ fresh cutoff (lookup jid (or_empty o))
lookup-or_empty-kept cutoff jid none h = unfold lookup in refl
lookup-or_empty-kept cutoff jid (some m) h = elim (Bool-cases (length (expire cutoff m) == 0)) [
  | inl e ↦ rw e (rw (← lookup-expire cutoff jid m h) (sym (lookup_empty (expire cutoff m) e)))
  | inr e ↦ rw e (lookup-expire cutoff jid m h)
]
  where
    lookup_empty : (m : ByJob) → (length m == 0) ≡ true → lookup jid m ≡ lookup jid []
    lookup_empty [] e = refl
    lookup_empty (x ∷ m) e = ground arith

-- Pruning forgets the entries from before the window, and nothing else.
pub processed_at-prune :
    (d : DedupStore) (now : ℕ) (pid jid : String)
    → IsValid d
    → processed_at (prune d now) pid jid ≡ fresh (now - d.retention) (processed_at d pid jid)
unfolding processed_at prune
processed_at-prune d now pid jid h = rw (lookup-prune_seen (now - d.retention) pid d.seen h.0) (
    lookup-or_empty-kept (now - d.retention) jid (lookup pid d.seen)
      (or_empty-HasUniqueKeys pid d.seen h.1))
