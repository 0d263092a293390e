-- ===== src/Corpus/Packets.antt =====
-- `valid_multipacket` and `multipacket` of normalize-corpus-flags.py: several packets in one input,
-- each behind its length in two bytes.
use lighttpd_fuzz.Base.{
  ℕ, zero, suc, ◌+◌, List, [], ◌∷◌, ◌++◌, Bool, false, ◌||◌, ltb, leb, ◌==◌, if◌then◌else◌, length,
  drop, Result, ok, value_error, raise_if, ◌>>=◌, ◌>>◌,
}
use lighttpd_fuzz.Base.Bytes.{Bytes, from_bytes, to_bytes}

abbrev pub max_packet_count : ℕ
max_packet_count = 64

-- The `while` loop, over `data[offset:]`; `size` bytes follow the two bytes of a length.
unfoldable pub valid_loop : ℕ → Bytes → ℕ → Bool
valid_loop fuel [] packet_count = ltb 0 packet_count
valid_loop zero (b ∷ bs) packet_count = false
valid_loop (suc fuel) (b ∷ []) packet_count = false
valid_loop (suc fuel) (hi ∷ lo ∷ rest) packet_count =
    let size = from_bytes (hi ∷ lo ∷ []) in
    let next = valid_loop fuel (drop size rest) (packet_count + 1) in
    if size == 0 || ltb (length rest) size
    then false
    else if ltb max_packet_count (packet_count + 1)
    then false
    else next

-- A round takes two bytes at least, so `len(data)` rounds are enough.
unfoldable pub valid_multipacket : Bytes → Bool
valid_multipacket content = valid_loop (length content) content 0

-- The `for` loop, over what `result` holds so far.
unfoldable pub extend_packets : Bytes → List Bytes → Result Bytes
extend_packets result [] = ok result
extend_packets result (packet ∷ packets) = do
  size ← to_bytes (length packet) 2
  extend_packets (result ++ (size ++ packet)) packets

-- `bytearray([flags])` refuses a number that is no byte.
unfoldable pub multipacket : ℕ → List Bytes → Result Bytes
multipacket flags packets = do
  raise_if (leb 256 flags) (value_error "byte must be in range(0, 256)")
  extend_packets (flags ∷ []) packets
