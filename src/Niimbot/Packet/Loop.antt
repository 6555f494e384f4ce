-- ===== src/Niimbot/Packet/Loop.antt =====
-- packet.go: the loop of `Feed` without its fuel, and how it goes on when bytes are appended.
use mathlib.Core.Option
use brother_connect.Base.{
  ℕ, zero, suc, ◌+◌, ◌-◌, ◌≤◌, ◌<◌, ◌≡◌, refl, sym, ap, ◌∙◌, ◌==◌, Bool, true, false, ◌⊎◌, inl, inr,
  List, [], ◌∷◌, ◌++◌, append_assoc, append-nil, length, get_or, drop, arith, length-append,
  length-drop, none, some, Option-cases, drop-append, take-append, get_or-append, ◌≢◌, Bool-cases,
}
use brother_connect.Niimbot.Packet.{
  Packet, head_byte, empty_packet, find_head, skip_garbage, parse_frame, parse_next, feed_loop,
}

pub find_head_bound : (buf : List ℕ) (i : ℕ) → find_head buf ≡ some i → i + 2 ≤ length buf
unfolding find_head
find_head_bound [] i e = ground arith
find_head_bound (x ∷ []) i e = ground arith
find_head_bound (x ∷ y ∷ rest) zero e = ground arith
find_head_bound (x ∷ y ∷ rest) (suc i) e = ground (arith, find_head_bound (y ∷ rest) i)

-- A round takes no more than there is, and a packet takes seven bytes at least.
pub next_bounds :
    (buf : List ℕ) (p : Packet) (n : ℕ) (got : Bool)
    → parse_next buf ≡ (p, n, got)
    → (n ≤ length buf) × (got ≡ true → 7 ≤ n)
unfolding parse_next parse_frame skip_garbage
next_bounds buf p n got e = elim (Option-cases (find_head buf)) [
  | inl h ↦ ground arith
  | inr (zero, h) ↦ ground arith
  | inr (suc i, h) ↦ ground (arith, find_head_bound buf (suc i) h)
]

-- Enough fuel: all greater amounts give one result.
feed_loop_fuel :
    (f g : ℕ) (buf : List ℕ) (out : List Packet)
    → length buf < f
    → length buf < g
    → feed_loop f buf out ≡ feed_loop g buf out
unfolding feed_loop
feed_loop_fuel zero g buf out hf hg = absurd (omega arith)
feed_loop_fuel (suc f) zero buf out hf hg = absurd (omega arith)
feed_loop_fuel (suc f) (suc g) buf out hf hg =
    let r = parse_next buf in
    ground (
      arith,
      next_bounds buf r.0 r.1 r.2 refl,
      length-drop r.1 buf,
      feed_loop_fuel f g (drop r.1 buf) out,
      feed_loop_fuel f g (drop r.1 buf) (out ++ (r.0 ∷ [])),
    )

feed_loop_out :
    (f : ℕ) (buf : List ℕ) (out : List Packet)
    → feed_loop f buf out ≡ ((feed_loop f buf []).0, out ++ (feed_loop f buf []).1)
unfolding feed_loop
feed_loop_out zero buf out = ground (arith, append-nil out)
feed_loop_out (suc f) buf out =
    let r = parse_next buf in
    ground (
      arith,
      append-nil out,
      feed_loop_out f (drop r.1 buf) out,
      feed_loop_out f (drop r.1 buf) (out ++ (r.0 ∷ [])),
      feed_loop_out f (drop r.1 buf) (r.0 ∷ []),
      append_assoc out (r.0 ∷ []) (feed_loop f (drop r.1 buf) []).1,
    )

-- What the loop of `Feed` makes of a buffer: what is left of it, and the packets.
unfoldable pub run : List ℕ → List ℕ × List Packet
run buf = feed_loop (suc (length buf)) buf []

-- The three kinds of round.
pub run_packet :
    (buf : List ℕ) (p : Packet) (n : ℕ)
    → parse_next buf ≡ (p, n, true)
    → run buf ≡ ((run (drop n buf)).0, p ∷ (run (drop n buf)).1)
unfolding run feed_loop
run_packet buf p n e = ground (
  arith,
  next_bounds buf p n true e,
  length-drop n buf,
  feed_loop_out (length buf) (drop n buf) (p ∷ []),
  feed_loop_fuel (length buf) (suc (length (drop n buf))) (drop n buf) [],
)

pub run_wait : (buf : List ℕ) (p : Packet) → parse_next buf ≡ (p, 0, false) → run buf ≡ (buf, [])
unfolding run feed_loop
run_wait buf p e = ground arith

pub run_skip :
    (buf : List ℕ) (p : Packet) (n : ℕ)
    → parse_next buf ≡ (p, n, false)
    → run buf ≡ run (drop n buf)
unfolding run feed_loop
run_skip buf p zero e = refl
run_skip buf p (suc n) e = ground (
  arith,
  next_bounds buf p (suc n) false e,
  length-drop (suc n) buf,
  feed_loop_fuel (length buf) (suc (length (drop (suc n) buf))) (drop (suc n) buf) [],
)

find_head_later :
    (x y : ℕ) (r : List ℕ)
    → (x ≢ head_byte) ⊎ (y ≢ head_byte)
    → find_head (x ∷ y ∷ r) ≡ Option.map suc (find_head (y ∷ r))
unfolding find_head
find_head_later x y r h = ground arith

-- A byte that cannot begin a head may be left out.
pub run_drop_one :
    (x y : ℕ) (r : List ℕ) → (x ≢ head_byte) ⊎ (y ≢ head_byte) → run (x ∷ y ∷ r) ≡ run (y ∷ r)
unfolding parse_next skip_garbage
run_drop_one x y r h = elim (Option-cases (find_head (y ∷ r))) [
  | inl e ↦
      let k = (skip_garbage (y ∷ r)).1 in
      run_skip (x ∷ y ∷ r) empty_packet (suc k) (ground (arith, find_head_later x y r h))
      ∙ sym (run_skip (y ∷ r) empty_packet k (ground arith))
  | inr (zero, e) ↦ run_skip (x ∷ y ∷ r) empty_packet 1 (ground (arith, find_head_later x y r h))
  | inr (suc i, e) ↦
      run_skip (x ∷ y ∷ r) empty_packet (suc (suc i)) (ground (arith, find_head_later x y r h))
      ∙ sym (run_skip (y ∷ r) empty_packet (suc i) (ground arith))
]

run_drop_single : (x : ℕ) (rest : List ℕ) → x ≢ head_byte → run (x ∷ rest) ≡ run rest
unfolding parse_next find_head skip_garbage
run_drop_single x [] h = run_skip (x ∷ []) empty_packet 1 (ground arith)
run_drop_single x (y ∷ r) h = run_drop_one x y r (inl h)

skip_garbage-suc :
    (x y : ℕ) (r : List ℕ) → (skip_garbage (x ∷ y ∷ r)).1 ≡ suc (skip_garbage (y ∷ r)).1
unfolding skip_garbage
skip_garbage-suc x y r = rw last (ground arith)
  where
    last : suc (suc (length r)) - 1 ≡ suc (suc (length r) - 1)
    last = omega arith

-- What a buffer without a head drops may be dropped whatever bytes come later.
run_garbage :
    (a b : List ℕ) → find_head a ≡ none → run (a ++ b) ≡ run (drop (skip_garbage a).1 a ++ b)
unfolding skip_garbage find_head
run_garbage [] b h = refl
run_garbage (x ∷ []) b h = elim (Bool-cases (x == head_byte)) [
  | inl e ↦ rw e
  | inr e ↦ rw e (run_drop_single x b (ground arith))
]
run_garbage (x ∷ y ∷ r) b h =
    run_drop_one x y (r ++ b) (ground arith)
    ∙ run_garbage (y ∷ r) b (ground arith)
    ∙ sym (ap (λ (k : ℕ). run (drop k (x ∷ y ∷ r) ++ b)) (skip_garbage-suc x y r))

-- The next round of a longer buffer: the same, unless there is no head yet.
find_head-append : (a b : List ℕ) (i : ℕ) → find_head a ≡ some i → find_head (a ++ b) ≡ some i
unfolding find_head
find_head-append [] b i e = ground arith
find_head-append (x ∷ []) b i e = ground arith
find_head-append (x ∷ y ∷ r) b zero e = ground arith
find_head-append (x ∷ y ∷ r) b (suc i) e = ground (arith, find_head-append (y ∷ r) b i)

parse_frame-append :
    (a b : List ℕ) (p : Packet) (n : ℕ) (got : Bool)
    → parse_frame a ≡ (p, n, got)
    → 0 < n
    → parse_frame (a ++ b) ≡ (p, n, got)
unfolding parse_frame
parse_frame-append a b p n got e h =
    let k = get_or a 3 0 in
    ground (
      arith,
      length-append a b,
      length-drop 4 a,
      drop-append 4 a b,
      get_or-append a b 3 0,
      get_or-append a b 2 0,
      get_or-append a b (k + 7 - 2) 0,
      get_or-append a b (k + 7 - 1) 0,
      get_or-append a b (k + 7 - 3) 0,
      take-append k (drop 4 a) b,
    )

-- A packet at the front of a buffer is the same when more bytes follow.
pub run-append_packet :
    (a b : List ℕ) (p : Packet) (n : ℕ)
    → parse_next a ≡ (p, n, true)
    → run (a ++ b) ≡ ((run (drop n a ++ b)).0, p ∷ (run (drop n a ++ b)).1)
unfolding parse_next skip_garbage
run-append_packet a b p n e =
    let front : parse_next (a ++ b) ≡ (p, n, true) = elim (Option-cases (find_head a)) [
      | inl h ↦ ground arith
      | inr (zero, h) ↦
          ground
            (arith, next_bounds a p n true, find_head-append a b 0, parse_frame-append a b p n true)
      | inr (suc i, h) ↦ ground arith
    ] in
    rw (← drop-append n a b (next_bounds a p n true e).0) (run_packet (a ++ b) p n front)

-- So are the bytes that a buffer skips.
pub run-append_skip :
    (a b : List ℕ) (p : Packet) (n : ℕ)
    → parse_next a ≡ (p, n, false)
    → run (a ++ b) ≡ run (drop n a ++ b)
run-append_skip a b p zero e = refl
run-append_skip a b p (suc n) e = elim (Option-cases (find_head a)) [
  | inl h ↦ unfold parse_next in ground (arith, run_garbage a b h)
  | inr (zero, h) ↦ rw (← drop-append (suc n) a b (next_bounds a p (suc n) false e).0) (
      run_skip (a ++ b) p (suc n) (
        unfold parse_next in
        ground (arith, find_head-append a b 0, parse_frame-append a b p (suc n) false)))
  | inr (suc i, h) ↦ rw (← drop-append (suc n) a b (next_bounds a p (suc n) false e).0) (
      run_skip (a ++ b) p (suc n)
        (unfold parse_next in ground (arith, find_head-append a b (suc i))))
]
