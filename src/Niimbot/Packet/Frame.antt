-- ===== src/Niimbot/Packet/Frame.antt =====
-- packet.go: `Marshal` against one call of `next`.
use brother_connect.Base.{
  ℕ, zero, suc, ◌+◌, ◌-◌, ◌≤◌, ◌<◌, ◌≡◌, refl, ap, ◌∙◌, true, List, [], ◌∷◌, ◌++◌, append_assoc,
  length, get_or, take, drop, All, length-append, length-take, arith,
}
use native.Mathlib.Nat.{suc-add}
use brother_connect.Niimbot.Packet.{
  Packet, head_byte, tail_byte, wire, failed, packet_too_long, checksum, marshal, find_head,
  skip_garbage, parse_frame, parse_next,
}

abbrev pub IsByte : ℕ → Type 0
IsByte b = b < 256

-- The bytes of a packet that `marshal` accepts.
abbrev pub frame : Packet → List ℕ
frame p =
    head_byte
    ∷ head_byte
    ∷ p.cmd
    ∷ length p.payload
    ∷ (p.payload ++ (checksum p.cmd p.payload ∷ tail_byte ∷ tail_byte ∷ []))

pub marshal_short : (p : Packet) → length p.payload ≤ 255 → marshal p ≡ wire (frame p)
unfolding marshal
marshal_short p h = ground arith

-- `Marshal` answers with the frame of a payload of at most 255 bytes, and with
-- `ErrPacketTooLong` for any other.
pub marshal_cases :
    (p : Packet)
    → (length p.payload ≤ 255 → marshal p ≡ wire (frame p))
      × (255 < length p.payload → marshal p ≡ failed packet_too_long)
unfolding marshal
marshal_cases p = ((λ h. ground arith), (λ h. ground arith))

-- What `Marshal` answers, if it does not refuse, is the frame.
pub marshal-frame : (p : Packet) (bytes : List ℕ) → marshal p ≡ wire bytes → bytes ≡ frame p
unfolding marshal
marshal-frame p bytes e = ground arith

get_or_at : (xs : List ℕ) {i j : ℕ} → i ≡ j → get_or xs i 0 ≡ get_or xs j 0
get_or_at xs e = ap (λ (k : ℕ). get_or xs k 0) e

get_or_past : (xs ys : List ℕ) (k : ℕ) → get_or (xs ++ ys) (length xs + k) 0 ≡ get_or ys k 0
get_or_past [] ys k = get_or_at ys {i = 0 + k} {j = k} (omega arith)
get_or_past (x ∷ xs) ys k =
    get_or_at (x ∷ (xs ++ ys)) {i = suc (length xs) + k} {j = suc (length xs + k)} (omega arith)
    ∙ get_or_past xs ys k

take_past : (xs ys : List ℕ) → take (length xs) (xs ++ ys) ≡ xs
take_past [] ys = refl
take_past (x ∷ xs) ys = ap (λ zs. x ∷ zs) (take_past xs ys)

-- A byte of a framed buffer behind its four first ones.
get_or_framed :
    (a b c d : ℕ) (xs ys : List ℕ) (i k : ℕ)
    → i ≡ 4 + length xs + k
    → get_or (a ∷ b ∷ c ∷ d ∷ (xs ++ ys)) i 0 ≡ get_or ys k 0
get_or_framed a b c d xs ys i k h =
    get_or_at (a ∷ b ∷ c ∷ d ∷ (xs ++ ys)) {j = suc (suc (suc (suc (length xs + k))))} (omega arith)
    ∙ get_or_past xs ys k

parse_frame_lem :
    (cmd : ℕ) (xs : List ℕ) (rest : List ℕ)
    → parse_frame (
        head_byte
        ∷ head_byte
        ∷ cmd
        ∷ length xs
        ∷ (xs ++ (checksum cmd xs ∷ tail_byte ∷ tail_byte ∷ rest)))
      ≡ (record { cmd = cmd; payload = xs }, length xs + 7, true)
unfolding parse_frame
parse_frame_lem cmd xs rest =
    let ys : List ℕ = checksum cmd xs ∷ tail_byte ∷ tail_byte ∷ rest in
    rw
      (
        take_past xs ys,
        get_or_framed 0x55 0x55 cmd (length xs) xs ys (length xs + 7 - 2) 1 (omega arith),
        get_or_framed 0x55 0x55 cmd (length xs) xs ys (length xs + 7 - 1) 2 (omega arith),
        get_or_framed 0x55 0x55 cmd (length xs) xs ys (length xs + 7 - 3) 0 (omega arith),
      )
      (ground (arith, length-append xs ys))

-- The parser gives a marshalled packet back, whatever follows it, and takes exactly its frame.
pub parse_next-frame :
    (p : Packet) (rest : List ℕ) → parse_next (frame p ++ rest) ≡ (p, length p.payload + 7, true)
unfolding parse_next find_head
parse_next-frame p rest = rw (append_assoc p.payload) (parse_frame_lem p.cmd p.payload rest)

split_three :
    (n : ℕ) (xs : List ℕ)
    → n + 3 ≤ length xs
    → xs
      ≡ take n xs ++ (get_or xs n 0 ∷ get_or xs (n + 1) 0 ∷ get_or xs (n + 2) 0 ∷ drop (n + 3) xs)
split_three zero [] h = absurd (omega arith)
split_three zero (x ∷ []) h = absurd (omega arith)
split_three zero (x ∷ y ∷ []) h = absurd (omega arith)
split_three zero (x ∷ y ∷ z ∷ xs) h = refl
split_three (suc n) [] h = absurd (omega arith)
split_three (suc n) (x ∷ xs) h =
    rw (suc-add n 1, suc-add n 2, suc-add n 3) (ap (λ zs. x ∷ zs) (split_three n xs (omega arith)))

-- What `next` has tested when it hands out a packet.
record Accepted (a b c d : ℕ) (xs : List ℕ) (p : Packet) (n : ℕ) : Type 0 where
  first : a ≡ head_byte
  second : b ≡ head_byte
  taken : n ≡ d + 7
  long : d + 3 ≤ length xs
  packet : p ≡ record { cmd = c; payload = take d xs }
  sum : get_or xs d 0 ≡ checksum c (take d xs)
  tail₁ : get_or xs (d + 1) 0 ≡ tail_byte
  tail₂ : get_or xs (d + 2) 0 ≡ tail_byte

behind_four :
    (a b c d : ℕ) (xs : List ℕ) (i k : ℕ)
    → i ≡ 4 + k
    → get_or (a ∷ b ∷ c ∷ d ∷ xs) i 0 ≡ get_or xs k 0
behind_four a b c d xs i k h =
    get_or_at (a ∷ b ∷ c ∷ d ∷ xs) {j = suc (suc (suc (suc k)))} (omega arith)

parse_frame_accepts :
    (a b c d : ℕ) (xs : List ℕ) (p : Packet) (n : ℕ)
    → a ≡ head_byte
    → b ≡ head_byte
    → parse_frame (a ∷ b ∷ c ∷ d ∷ xs) ≡ (p, n, true)
    → Accepted a b c d xs p n
unfolding parse_frame
parse_frame_accepts a b c d xs p n ha hb e = ground (
  arith,
  behind_four a b c d xs (d + 7 - 2) (d + 1),
  behind_four a b c d xs (d + 7 - 1) (d + 2),
  behind_four a b c d xs (d + 7 - 3) d,
)

next_accepts :
    (a b c d : ℕ) (xs : List ℕ) (p : Packet) (n : ℕ)
    → parse_next (a ∷ b ∷ c ∷ d ∷ xs) ≡ (p, n, true)
    → Accepted a b c d xs p n
unfolding parse_next find_head skip_garbage
next_accepts a b c d xs p n e = ground (arith, parse_frame_accepts a b c d xs p n)

drop_four :
    (a b c d : ℕ) (xs : List ℕ) (k : ℕ) → drop (k + 7) (a ∷ b ∷ c ∷ d ∷ xs) ≡ drop (k + 3) xs
drop_four a b c d xs k = ap (λ (j : ℕ). drop j (a ∷ b ∷ c ∷ d ∷ xs)) (seven k)
  where
    seven : (k : ℕ) → k + 7 ≡ suc (suc (suc (suc (k + 3))))
    seven k = omega arith

Accepted-frame :
    (a b c d : ℕ) (xs : List ℕ) (p : Packet) (n : ℕ)
    → d < 256
    → Accepted a b c d xs p n
    → ((a ∷ b ∷ c ∷ d ∷ xs) ≡ frame p ++ drop n (a ∷ b ∷ c ∷ d ∷ xs))
      × (n ≡ length p.payload + 7)
      × (length p.payload ≤ 255)
Accepted-frame a b c d xs p n hd acc = ground (
  arith,
  split_three d xs acc.long,
  length-take d xs,
  drop_four a b c d xs d,
  append_assoc (take d xs) (checksum c (take d xs) ∷ tail_byte ∷ tail_byte ∷ []) (drop (d + 3) xs),
)

-- A packet that the parser hands out stood at the front of the buffer as its frame, with a right
-- length, checksum and tail, and exactly these bytes are taken.
pub parse_next_sound :
    (buf : List ℕ) (p : Packet) (n : ℕ)
    → All IsByte buf
    → parse_next buf ≡ (p, n, true)
    → (buf ≡ frame p ++ drop n buf) × (n ≡ length p.payload + 7) × (length p.payload ≤ 255)
unfolding parse_next find_head skip_garbage parse_frame
parse_next_sound [] p n h e = ground arith
parse_next_sound (a ∷ []) p n h e = ground arith
parse_next_sound (a ∷ b ∷ []) p n h e = ground arith
parse_next_sound (a ∷ b ∷ c ∷ []) p n h e = ground arith
parse_next_sound (a ∷ b ∷ c ∷ d ∷ xs) p n h e =
    Accepted-frame a b c d xs p n h.1.1.1.0 (next_accepts a b c d xs p n e)
