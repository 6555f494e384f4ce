-- ===== src/Queue/Dedup/Tests.antt =====
-- dedup.go: the runs of dedup_test.go, and the theorems at concrete inputs.
use brother_connect.Base.{
  ◌≡◌, refl, true, false, [], ◌∷◌, none, arith, lookup, String, if◌then◌else◌,
}
use brother_connect.Queue.Dedup.{
  DedupStore, seen_recently, record_processed, prune, prune_seen, expire,
}
use brother_connect.Queue.Dedup.Memory.{processed_at, IsValid}
use brother_connect.Queue.Dedup.Retention.{
  within, ask, note, access_all, seen_recently_exact, record_processed_remembered,
}

abbrev store : DedupStore
store = record { retention = 100; seen = ("p1", ("a", 1000) ∷ []) ∷ [] }

store-IsValid : IsValid store
unfolding lookup
store-IsValid = ((refl, tt), ((refl, tt), tt))

forgotten : (seen_recently store 1101 "p1" "a").1 ≡ false
unfolding seen_recently prune prune_seen expire lookup
forgotten = refl

seen_recently_exact_example :
    ((seen_recently store 1100 "p1" "a").1 ≡ within 100 1100 (processed_at store "p1" "a"))
    × ((pid jid : String)
        → processed_at (seen_recently store 1100 "p1" "a").0 pid jid ≡ (
            if within 100 1100 (processed_at store pid jid)
            then processed_at store pid jid
            else none))
seen_recently_exact_example = seen_recently_exact store 1100 "p1" "a" store-IsValid

record_processed_remembered_example :
    (seen_recently
      (access_all
        (record_processed store 1050 "p2" "b")
        (ask 1120 "p1" "a" ∷ note 1130 "p2" "c" ∷ []))
      1150
      "p2"
      "b").1
    ≡ true
record_processed_remembered_example =
    record_processed_remembered store 1050 1150 "p2" "b"
      (ask 1120 "p1" "a" ∷ note 1130 "p2" "c" ∷ []) store-IsValid (omega arith) (omega arith)
