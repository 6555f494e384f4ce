-- ===== src/Niimbot/Packet/Stream.antt =====
-- packet.go: `Feed` over a stream of bytes that arrives in chunks.
use mathlib.Core.List.{flatten}
use brother_connect.Base.{
  ℕ, zero, suc, ◌+◌, ◌≤◌, ◌<◌, ◌≡◌, refl, sym, ap, ◌∙◌, ◌≢◌, Bool, true, false, inl, List, [], ◌∷◌,
  ◌++◌, append_assoc, append-nil, length, drop, take, take-append-drop, All, arith, length-append,
  length-drop, drop-append, drop_all,
}
use brother_connect.Niimbot.Packet.{
  Packet, Parser, wire, marshal, head_byte, tail_byte, checksum, empty_packet, parse_next,
  find_head, skip_garbage, feed,
}
use brother_connect.Niimbot.Packet.Frame.{
  IsByte, frame, marshal-frame, parse_next-frame, parse_next_sound,
}
use brother_connect.Niimbot.Packet.Loop.{
  run, run_packet, run_wait, run_skip, run_drop_one, run-append_packet, run-append_skip,
  next_bounds,
}

-- Induction on the rounds of the loop: a buffer waits, skips or starts with a packet.
data Rounds : List ℕ → Type 0 where
  wait : (a : List ℕ) (p : Packet) → parse_next a ≡ (p, 0, false) → Rounds a
  skip :
      (a : List ℕ) (p : Packet) (n : ℕ)
      → parse_next a ≡ (p, n, false)
      → Rounds (drop n a)
      → Rounds a
  packet :
      (a : List ℕ) (p : Packet) (n : ℕ) → parse_next a ≡ (p, n, true) → Rounds (drop n a) → Rounds a

Rounds-step :
    (a : List ℕ) (n : ℕ) (got : Bool)
    → (parse_next a).1 ≡ n
    → (parse_next a).2 ≡ got
    → ((b : List ℕ) → length b < length a → Rounds b)
    → Rounds a
Rounds-step a n true hn hg rest =
    let (fits, seven) = next_bounds a (parse_next a).0 n true (ground arith) in
    packet a (parse_next a).0 n (ground arith)
      (rest (drop n a) (omega (arith, length-drop n a, fits, seven refl)))
Rounds-step a zero false hn hg rest = wait a (parse_next a).0 (ground arith)
Rounds-step a (suc n) false hn hg rest = skip a (parse_next a).0 (suc n) (ground arith) (
    rest (drop (suc n) a) (
      omega (
        arith,
        length-drop (suc n) a,
        next_bounds a (parse_next a).0 (suc n) false (ground arith),
      )))

Rounds-below : (k : ℕ) (a : List ℕ) → length a < k → Rounds a
Rounds-below zero a h = absurd (omega arith)
Rounds-below (suc k) a h =
    Rounds-step a (parse_next a).1 (parse_next a).2 refl refl
      (λ b hb. Rounds-below k b (omega arith))

rounds : (a : List ℕ) → Rounds a
rounds a = Rounds-below (suc (length a)) a (omega arith)

-- The loop stops only where the parser asks for more bytes.
run_waits : {a : List ℕ} → Rounds a → (p : Packet) × (parse_next (run a).0 ≡ (p, 0, false))
run_waits (wait a p e) = (p, rw (run_wait a p e) e)
run_waits (skip a p n e r) = rw (run_skip a p n e) (run_waits r)
run_waits (packet a p n e r) = rw (run_packet a p n e) (run_waits r)

run-append :
    {a : List ℕ} (b : List ℕ)
    → Rounds a
    → run (a ++ b) ≡ ((run ((run a).0 ++ b)).0, (run a).1 ++ (run ((run a).0 ++ b)).1)
run-append b (wait a p e) = rw (run_wait a p e)
run-append b (skip a p n e r) = rw (run_skip a p n e) (run-append_skip a b p n e ∙ run-append b r)
run-append b (packet a p n e r) =
    rw (run_packet a p n e)
      (run-append_packet a b p n e ∙ ap (λ t. (t.0, p ∷ t.1)) (run-append b r))

-- The packets lie in the bytes, whole and in this order, none over another.
pub data Carries : List ℕ → List Packet → Type 0 where
  rest : (a : List ℕ) → Carries a []
  found :
      {a : List ℕ} {ps : List Packet} (before after : List ℕ) (p : Packet)
      → a ≡ before ++ (frame p ++ after)
      → length p.payload ≤ 255
      → Carries after ps
      → Carries a (p ∷ ps)

Carries-behind :
    (front a : List ℕ) {b : List ℕ} {ps : List Packet}
    → a ≡ front ++ b
    → Carries b ps
    → Carries a ps
Carries-behind front a h (rest b) = rest a
Carries-behind front a h (found before after p e l c) =
    found (front ++ before) after p
      (h ∙ ap (λ bs. front ++ bs) e ∙ sym (append_assoc front before (frame p ++ after))) l c

All-drop : (n : ℕ) (a : List ℕ) → All IsByte a → All IsByte (drop n a)
All-drop zero a h = h
All-drop (suc n) [] h = h
All-drop (suc n) (x ∷ a) h = All-drop n a h.1

run-Carries : {a : List ℕ} → Rounds a → All IsByte a → Carries a (run a).1
run-Carries (wait a p e) h = rw (run_wait a p e) (rest a)
run-Carries (skip a p n e r) h =
    rw (run_skip a p n e)
      (Carries-behind (take n a) a (sym (take-append-drop n a)) (run-Carries r (All-drop n a h)))
run-Carries (packet a p n e r) h =
    let sound = parse_next_sound a p n h e in
    rw (run_packet a p n e) (found [] (drop n a) p sound.0 sound.2 (run-Carries r (All-drop n a h)))

-- The receiving side over several chunks: `Feed` on each, the packets in a row.
unfoldable pub feed_all : Parser → List (List ℕ) → Parser × List Packet
feed_all ps [] = (ps, [])
feed_all ps (chunk ∷ chunks) =
    let (ps', out) = feed ps chunk in
    let (ps'', later) = feed_all ps' chunks in (ps'', out ++ later)

feed-run :
    (ps : Parser) (b : List ℕ)
    → feed ps b ≡ (record { buf = (run (ps.buf ++ b)).0 }, (run (ps.buf ++ b)).1)
unfolding feed run
feed-run ps b = refl

-- A parser that has just been fed waits for more bytes.
abbrev pub IsWaiting : Parser → Type 0
IsWaiting ps = (p : Packet) × (parse_next ps.buf ≡ (p, 0, false))

-- `Feed` always ends by asking for more bytes: it leaves no packet and no garbage to skip behind.
pub feed-IsWaiting : (ps : Parser) (b : List ℕ) → IsWaiting (feed ps b).0
feed-IsWaiting ps b = rw (feed-run ps b) (run_waits (rounds (ps.buf ++ b)))

feed_twice :
    (ps : Parser) (b c : List ℕ)
    → feed ps (b ++ c) ≡ ((feed (feed ps b).0 c).0, (feed ps b).1 ++ (feed (feed ps b).0 c).1)
feed_twice ps b c = rw (
  feed-run ps (b ++ c),
  feed-run ps b,
  feed-run (record { buf = (run (ps.buf ++ b)).0 }) c,
  ← append_assoc ps.buf b c,
  run-append c (rounds (ps.buf ++ b)),
)

feed_all-flatten :
    (ps : Parser) (chunks : List (List ℕ))
    → IsWaiting ps
    → feed_all ps chunks ≡ feed ps (flatten chunks)
unfolding feed_all flatten
feed_all-flatten ps [] (p, h) = sym (rw (feed-run ps [], append-nil ps.buf, run_wait ps.buf p h))
feed_all-flatten ps (c ∷ cs) h =
    rw (feed_all-flatten (feed ps c).0 cs (feed-IsWaiting ps c))
      (sym (feed_twice ps c (flatten cs)))

-- Chunks do not matter: two ways to cut one stream of bytes, fed to a parser that waits for more,
-- give the same packets in the same order and leave the same parser.
pub feed_all_chunks :
    (ps : Parser) (chunks chunks' : List (List ℕ))
    → IsWaiting ps
    → flatten chunks ≡ flatten chunks'
    → feed_all ps chunks ≡ feed_all ps chunks'
feed_all_chunks ps chunks chunks' h e =
    feed_all-flatten ps chunks h ∙ ap (λ b. feed ps b) e ∙ sym (feed_all-flatten ps chunks' h)

abbrev pub new_parser : Parser
new_parser = record { buf = [] }

new_parser-IsWaiting : IsWaiting new_parser
unfolding parse_next find_head skip_garbage
new_parser-IsWaiting = (empty_packet, refl)

-- What a sender writes: the bytes of each packet behind some line noise.
abbrev pub sent_bytes : List (List ℕ × List ℕ × Packet) → List ℕ
sent_bytes [] = []
sent_bytes ((noise, bytes, p) ∷ more) = noise ++ (bytes ++ sent_bytes more)

abbrev pub packets_of : List (List ℕ × List ℕ × Packet) → List Packet
packets_of [] = []
packets_of ((noise, bytes, p) ∷ more) = p ∷ packets_of more

-- Noise holds no head byte, and the bytes are those that `Marshal` gives for the packet.
abbrev pub IsSent : List ℕ × List ℕ × Packet → Type 0
IsSent (noise, bytes, p) = All (λ b. b ≢ head_byte) noise × (marshal p ≡ wire bytes)

run_noise :
    (noise : List ℕ) (p : Packet) (after : List ℕ)
    → All (λ b. b ≢ head_byte) noise
    → run (noise ++ (frame p ++ after)) ≡ run (frame p ++ after)
run_noise [] p after h = refl
run_noise (x ∷ []) p after h = run_drop_one x head_byte _ (inl h.0)
run_noise (x ∷ y ∷ noise) p after h =
    run_drop_one x y (noise ++ (frame p ++ after)) (inl h.0) ∙ run_noise (y ∷ noise) p after h.1

drop-frame : (p : Packet) (after : List ℕ) → drop (length p.payload + 7) (frame p ++ after) ≡ after
drop-frame p after =
    let n = length p.payload + 7 in
    let size : length (frame p) ≡ n =
      omega
        (arith, length-append p.payload (checksum p.cmd p.payload ∷ tail_byte ∷ tail_byte ∷ [])) in
    drop-append n (frame p) after (omega arith)
    ∙ ap (λ front. front ++ after) (drop_all n (frame p) (omega arith))

run_framed :
    (noise : List ℕ) (p : Packet) (after : List ℕ)
    → All (λ b. b ≢ head_byte) noise
    → run (noise ++ (frame p ++ after)) ≡ ((run after).0, p ∷ (run after).1)
run_framed noise p after h =
    run_noise noise p after h
    ∙ run_packet (frame p ++ after) p (length p.payload + 7) (parse_next-frame p after)
    ∙ rw (drop-frame p after) refl

run-sent_bytes :
    (sent : List (List ℕ × List ℕ × Packet))
    → All IsSent sent
    → run (sent_bytes sent) ≡ ([], packets_of sent)
run-sent_bytes [] h = run_wait [] empty_packet (unfold parse_next find_head skip_garbage in refl)
run-sent_bytes ((noise, bytes, p) ∷ more) h =
    ap (λ bs. run (noise ++ (bs ++ sent_bytes more))) (marshal-frame p bytes h.0.1)
    ∙ run_framed noise p (sent_bytes more) h.0.0
    ∙ rw (run-sent_bytes more h.1) refl

-- Delivery: what `Marshal` gives for some packets, sent with noise between them that holds no head
-- byte, and cut into chunks in any way, comes out of a new parser as these packets, all, once,
-- unchanged and in order, and nothing stays in its buffer.
pub feed_all_delivers :
    (sent : List (List ℕ × List ℕ × Packet)) (chunks : List (List ℕ))
    → All IsSent sent
    → flatten chunks ≡ sent_bytes sent
    → feed_all new_parser chunks ≡ (new_parser, packets_of sent)
feed_all_delivers sent chunks h e =
    feed_all-flatten new_parser chunks new_parser-IsWaiting
    ∙ rw (e, feed-run new_parser (sent_bytes sent), run-sent_bytes sent h)

-- No packet is made up: what a new parser hands out over any chunks of bytes lay in the stream
-- as whole frames, in this order, none over another.
pub feed_all-Carries :
    (chunks : List (List ℕ))
    → All IsByte (flatten chunks)
    → Carries (flatten chunks) (feed_all new_parser chunks).1
feed_all-Carries chunks h =
    rw (feed_all-flatten new_parser chunks new_parser-IsWaiting, feed-run)
      (run-Carries (rounds (flatten chunks)) h)
