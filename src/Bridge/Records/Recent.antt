-- ===== src/Bridge/Records/Recent.antt =====
-- bridge.go: the list of recent jobs is the end of the whole story, told without repetition.
use brother_connect.Base.{
  ℕ, suc, ◌-◌, ◌≤◌, ltb, ◌≡◌, refl, sym, ap, ◌∙◌, Bool, true, false, ◌&&◌, String, str_eq, List, [],
  ◌∷◌, ◌++◌, length, Bool-cases, inl, inr, append-nil, append_assoc, drop, arith, if◌then◌else◌,
}
use brother_connect.Bridge.Records.{JobRecord, inherit, place, record_job, max_job_records}

-- The story from a record on, where the records before it in its row know a printer.
abbrev pub named : String → JobRecord → JobRecord
named known r = record r { printer_id = known }

abbrev pub known_after : String → JobRecord → String
known_after known r = if str_eq r.printer_id "" then known else r.printer_id

-- Of records in a row for one job the last one, with the last printer that one of them names.
unfoldable pub last_of_each_from : String → JobRecord → List JobRecord → List JobRecord
last_of_each_from known r [] = named known r ∷ []
last_of_each_from known r (next ∷ more) =
    let same_job = last_of_each_from (known_after known next) next more in
    let other_job = last_of_each_from next.printer_id next more in
    if str_eq r.job_id next.job_id then same_job else named known r ∷ other_job

abbrev pub last_of_each : List JobRecord → List JobRecord
last_of_each [] = []
last_of_each (r ∷ more) = last_of_each_from r.printer_id r more

-- The same with the rule of `recordJob` for the printer.
latest_from : JobRecord → List JobRecord → List JobRecord
latest_from r [] = r ∷ []
latest_from r (next ∷ more) =
    let rest = latest_from (inherit r next) more in
    if str_eq r.job_id next.job_id then rest else r ∷ rest

abbrev latest_of_each : List JobRecord → List JobRecord
latest_of_each [] = []
latest_of_each (r ∷ more) = latest_from r more

-- At most `n` elements, those at the end.
abbrev pub last_of {ℓ} : {A : Type ℓ} → ℕ → List A → List A
last_of n xs = drop (length xs - n) xs

-- The calls of `recordJob` one after another.
unfoldable pub record_all : List JobRecord → List JobRecord → List JobRecord
record_all jobs [] = jobs
record_all jobs (r ∷ more) = record_all (record_job jobs r) more

last_of-short {ℓ} : {A : Type ℓ} (n : ℕ) (xs : List A) → length xs ≤ n → last_of n xs ≡ xs
last_of-short n xs short = ap (λ k. drop k xs) (none_over (length xs) n short)
  where
    none_over : (k n : ℕ) → k ≤ n → k - n ≡ 0
    none_over k n le = omega (arith, le)

last_of-cons {ℓ} :
    {A : Type ℓ} (n : ℕ) (x : A) (xs : List A) → n ≤ length xs → last_of n (x ∷ xs) ≡ last_of n xs
last_of-cons n x xs long = ap (λ k. drop k (x ∷ xs)) (one_over (length xs) n long)
  where
    one_over : (k n : ℕ) → n ≤ k → suc k - n ≡ suc (k - n)
    one_over k n le = omega (arith, le)

record_job-last_of :
    (jobs : List JobRecord) (r : JobRecord)
    → record_job jobs r ≡ last_of max_job_records (place jobs r)
unfolding record_job
record_job-last_of jobs r = elim (Bool-cases (ltb max_job_records (length (place jobs r)))) [
  | inl t ↦ rw t refl
  | inr f ↦ rw f (sym (last_of-short max_job_records (place jobs r) (ground arith)))
]

place-cons :
    (first : JobRecord) (more : List JobRecord) (r : JobRecord)
    → 1 ≤ length more
    → place (first ∷ more) r ≡ first ∷ place more r
unfolding place
place-cons first [] r le = absurd (omega (arith, le))
place-cons first (second ∷ more) r le = refl

length-place : (jobs : List JobRecord) (r : JobRecord) → length jobs ≤ length (place jobs r)
unfolding place
length-place [] r = omega arith
length-place (last ∷ []) r = ground arith
length-place (first ∷ second ∷ more) r = omega (arith, length-place (second ∷ more) r)

place-last_of :
    (n : ℕ) (jobs : List JobRecord) (r : JobRecord)
    → last_of (suc n) (place (last_of (suc n) jobs) r) ≡ last_of (suc n) (place jobs r)
place-last_of n [] r =
    ap (λ js. last_of (suc n) (place js r)) (last_of-short (suc n) [] (omega arith))
place-last_of n (first ∷ more) r = elim (Bool-cases (ltb n (length more))) [
  | inl t ↦
      ap (λ js. last_of (suc n) (place js r)) (last_of-cons (suc n) first more (ground arith))
      ∙ place-last_of n more r
      ∙ sym (
          ap (λ js. last_of (suc n) js) (place-cons first more r (ground arith))
          ∙ last_of-cons (suc n) first (place more r) (ground (arith, length-place more r)))
  | inr f ↦
      ap (λ js. last_of (suc n) (place js r)) (last_of-short (suc n) (first ∷ more) (ground arith))
]

length-latest_from : (r : JobRecord) (more : List JobRecord) → 1 ≤ length (latest_from r more)
unfolding latest_from
length-latest_from r [] = omega arith
length-latest_from r (next ∷ more) = ground (arith, length-latest_from (inherit r next) more)

latest_from-snoc :
    (r : JobRecord) (more : List JobRecord) (x : JobRecord)
    → latest_from r (more ++ (x ∷ [])) ≡ place (latest_from r more) x
unfolding latest_from place
latest_from-snoc r [] x = refl
latest_from-snoc r (next ∷ more) x = elim (Bool-cases (str_eq r.job_id next.job_id)) [
  | inl t ↦ rw t (latest_from-snoc (inherit r next) more x)
  | inr f ↦ rw f (
      ap (λ rs. r ∷ rs) (latest_from-snoc (inherit r next) more x)
      ∙ sym (
          place-cons r (latest_from (inherit r next) more) x
            (length-latest_from (inherit r next) more)))
]

latest_of_each-snoc :
    (rs : List JobRecord) (x : JobRecord)
    → latest_of_each (rs ++ (x ∷ [])) ≡ place (latest_of_each rs) x
unfolding latest_from place
latest_of_each-snoc [] x = refl
latest_of_each-snoc (r ∷ more) x = latest_from-snoc r more x

record_all-after :
    (done rs : List JobRecord)
    → record_all (last_of max_job_records (latest_of_each done)) rs
      ≡ last_of max_job_records (latest_of_each (done ++ rs))
unfolding record_all
record_all-after done [] =
    ap (λ rs. last_of max_job_records (latest_of_each rs)) (sym (append-nil done))
record_all-after done (r ∷ more) =
    ap (λ jobs. record_all jobs more)
      (record_job-last_of (last_of max_job_records (latest_of_each done)) r
        ∙ place-last_of 19 (latest_of_each done) r
        ∙ sym (ap (λ js. last_of max_job_records js) (latest_of_each-snoc done r)))
    ∙ record_all-after (done ++ (r ∷ [])) more
    ∙ ap (λ rs. last_of max_job_records (latest_of_each rs)) (append_assoc done (r ∷ []) more)

inherit_same :
    (known : String) (r next : JobRecord)
    → str_eq r.job_id next.job_id ≡ true
    → inherit (named known r) next ≡ named (known_after known next) next
unfolding inherit
inherit_same known r next same = by_tests (str_eq next.printer_id "") same
  where
    by_tests :
        (unnamed : Bool) {same : Bool}
        → same ≡ true
        → (if unnamed && same then named known next else next)
          ≡ named (if unnamed then known else next.printer_id) next
    by_tests true e = rw e refl
    by_tests false e = refl

inherit_other :
    (known : String) (r next : JobRecord)
    → str_eq r.job_id next.job_id ≡ false
    → inherit (named known r) next ≡ next
unfolding inherit
inherit_other known r next other = by_tests (str_eq next.printer_id "") other
  where
    by_tests :
        (unnamed : Bool) {same : Bool}
        → same ≡ false
        → (if unnamed && same then named known next else next) ≡ next
    by_tests true e = rw e refl
    by_tests false e = refl

last_of_each_from-latest :
    (known : String) (r : JobRecord) (more : List JobRecord)
    → latest_from (named known r) more ≡ last_of_each_from known r more
unfolding latest_from last_of_each_from
last_of_each_from-latest known r [] = refl
last_of_each_from-latest known r (next ∷ more) = elim (Bool-cases (str_eq r.job_id next.job_id)) [
  | inl same ↦ rw same (
      ap (λ n. latest_from n more) (inherit_same known r next same)
      ∙ last_of_each_from-latest (known_after known next) next more)
  | inr other ↦ rw other (
      ap (λ n. named known r ∷ latest_from n more) (inherit_other known r next other)
      ∙ ap (λ rs. named known r ∷ rs) (last_of_each_from-latest next.printer_id next more))
]

latest_of_each-eq : (rs : List JobRecord) → latest_of_each rs ≡ last_of_each rs
latest_of_each-eq [] = refl
latest_of_each-eq (r ∷ more) = last_of_each_from-latest r.printer_id r more

-- From an empty list, after `recordJob` for some records in turn: the list holds the last 20 of what
-- is left when, of records in a row for the same job, only the last one is kept, with the printer
-- that the last of them names whose printer is not empty.
pub record_all-recent :
    (rs : List JobRecord) → record_all [] rs ≡ last_of max_job_records (last_of_each rs)
record_all-recent rs =
    record_all-after [] rs ∙ ap (λ js. last_of max_job_records js) (latest_of_each-eq rs)
