-- ===== src/Niimbot/Packet/Tests.antt =====
-- packet.go: runs on the frames of packet_test.go, and the theorems at concrete inputs.
use mathlib.Core.List.{flatten}
use brother_connect.Base.{ℕ, ◌≡◌, refl, List, [], ◌∷◌, arith}
use brother_connect.Niimbot.Packet.{
  Packet, wire, checksum, marshal, find_head, skip_garbage, parse_frame, parse_next, feed_loop,
  feed, empty_packet,
}
use brother_connect.Niimbot.Packet.Stream.{
  feed_all, feed_all_chunks, feed_all_delivers, feed_all-Carries, feed-IsWaiting, new_parser,
  Carries, IsWaiting,
}

abbrev type_reply : Packet
type_reply = record { cmd = 0x48; payload = 0x10 ∷ 0x00 ∷ [] }

abbrev device_type_frame : List ℕ
device_type_frame = 0x55 ∷ 0x55 ∷ 0x48 ∷ 0x02 ∷ 0x10 ∷ 0x00 ∷ 0x5a ∷ 0xaa ∷ 0xaa ∷ []

marshal-type_reply : marshal type_reply ≡ wire device_type_frame
unfolding marshal checksum
marshal-type_reply = refl

-- A bad checksum is skipped, and the following good frame still parses.
resync :
    (feed new_parser
      (0x55 ∷ 0x55 ∷ 0x48 ∷ 0x02 ∷ 0x10 ∷ 0x00 ∷ 0x5b ∷ 0xaa ∷ 0xaa ∷ device_type_frame)).1
    ≡ type_reply ∷ []
unfolding feed feed_loop parse_next find_head skip_garbage parse_frame checksum
resync = refl

abbrev noisy : List (List ℕ × List ℕ × Packet)
noisy = (1 ∷ 0x99 ∷ [], device_type_frame, type_reply) ∷ ([], device_type_frame, type_reply) ∷ []

abbrev noisy_chunks : List (List ℕ)
noisy_chunks =
    (1 ∷ [])
    ∷ (0x99 ∷ 0x55 ∷ [])
    ∷ (0x55 ∷ 0x48 ∷ 0x02 ∷ 0x10 ∷ 0x00 ∷ 0x5a ∷ 0xaa ∷ 0xaa ∷ 0x55 ∷ [])
    ∷ (0x55 ∷ 0x48 ∷ 0x02 ∷ 0x10 ∷ 0x00 ∷ 0x5a ∷ 0xaa ∷ [])
    ∷ (0xaa ∷ [])
    ∷ []

feed_all_delivers_example :
    feed_all new_parser noisy_chunks ≡ (new_parser, type_reply ∷ type_reply ∷ [])
unfolding flatten
feed_all_delivers_example =
    feed_all_delivers noisy noisy_chunks
      (((omega arith, (omega arith, tt)), marshal-type_reply), ((tt, marshal-type_reply), tt)) refl

waiting : IsWaiting new_parser
unfolding parse_next find_head skip_garbage
waiting = (empty_packet, refl)

feed_all_chunks_example :
    feed_all new_parser noisy_chunks ≡ feed_all new_parser (flatten noisy_chunks ∷ [])
unfolding flatten
feed_all_chunks_example =
    feed_all_chunks new_parser noisy_chunks (flatten noisy_chunks ∷ []) waiting refl

feed_all-Carries_example : Carries (flatten noisy_chunks) (feed_all new_parser noisy_chunks).1
unfolding flatten
feed_all-Carries_example = feed_all-Carries noisy_chunks (ground arith)

feed-IsWaiting_run : IsWaiting (feed new_parser device_type_frame).0
feed-IsWaiting_run = feed-IsWaiting new_parser device_type_frame
