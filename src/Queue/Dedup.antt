-- ===== src/Queue/Dedup.antt =====
-- internal/queue/dedup.go. A time is a number of nanoseconds, and a reading of the clock is an
-- argument. `-` on such numbers stops at 0, before which there is no time.
pub mod Memory
pub mod Retention
mod Tests
use brother_connect.Base.{
  ℕ, ◌-◌, ◌*◌, ◌==◌, ltb, Bool, true, false, String, lookup, insert, Option, none, some, List, [],
  ◌∷◌, length, if◌then◌else◌,
}

-- `DefaultRetention`: seven days.
abbrev pub default_retention : ℕ
default_retention = 7 * 24 * 3600 * 1000000000

-- The times at which the jobs of one printer were processed, and the jobs of each printer.
abbrev pub ByJob : Type 0
ByJob = List (String × ℕ)

pub record DedupStore : Type 0 where
  pub retention : ℕ
  pub seen : List (String × ByJob)

-- `newDedupStore`; a retention below 0 is no number here, and is replaced in the same way.
unfoldable pub new_dedup_store : ℕ → DedupStore
new_dedup_store retention = record {
  retention = if retention == 0 then default_retention else retention;
  seen = [];
}

unfoldable pub expire : ℕ → ByJob → ByJob
expire cutoff [] = []
expire cutoff ((jid, at) ∷ more) =
    let kept = expire cutoff more in if ltb at cutoff then kept else (jid, at) ∷ kept

unfoldable pub prune_seen : ℕ → List (String × ByJob) → List (String × ByJob)
prune_seen cutoff [] = []
prune_seen cutoff ((pid, by_job) ∷ more) =
    let kept = expire cutoff by_job in
    let rest = prune_seen cutoff more in if length kept == 0 then rest else (pid, kept) ∷ rest

-- `pruneLocked`
unfoldable pub prune : DedupStore → ℕ → DedupStore
prune d now = record d { seen = prune_seen (now - d.retention) d.seen }

abbrev pub is_some : Option ℕ → Bool
is_some none = false
is_some (some _) = true

-- `seenRecently`: the pruned store, and the answer.
unfoldable pub seen_recently : DedupStore → ℕ → String → String → DedupStore × Bool
seen_recently d now pid jid =
    let d' = prune d now in
    (d', elim (lookup pid d'.seen) [ none ↦ false | some by_job ↦ is_some (lookup jid by_job) ])

abbrev pub or_empty : Option ByJob → ByJob
or_empty none = []
or_empty (some by_job) = by_job

-- `record`
unfoldable pub record_processed : DedupStore → ℕ → String → String → DedupStore
record_processed d now pid jid = record d {
  seen = insert pid (insert jid now (or_empty (lookup pid d.seen))) d.seen;
}
