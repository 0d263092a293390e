-- ===== src/Send/Packets.antt =====
-- `fuzzer_packets` of send-test-case.py.
use lighttpd_fuzz.Base.{
  ℕ, zero, suc, List, [], ◌∷◌, ◌++◌, ◌||◌, ltb, ◌==◌, bit_and, if◌then◌else◌, length, take, drop,
  Result, ok, err, value_error, diverged, ◌>>=◌,
}
use lighttpd_fuzz.Base.Bytes.{Bytes, from_bytes}

-- The `while` loop, over `data[offset:]` and the packets found so far.
unfoldable pub packets_loop : ℕ → Bytes → List Bytes → Result (List Bytes)
packets_loop fuel [] packets = ok packets
packets_loop zero (b ∷ bs) packets = err diverged
packets_loop (suc fuel) (b ∷ []) packets = err (value_error "truncated packet length")
packets_loop (suc fuel) (hi ∷ lo ∷ rest) packets =
    let size = from_bytes (hi ∷ lo ∷ []) in
    let packets' = packets ++ take size rest ∷ [] in
    let next = packets_loop fuel (drop size rest) packets' in
    if size == 0 || ltb (length rest) size
    then err (value_error "invalid packet length")
    else if ltb 64 (length packets')
    then err (value_error "too many packets")
    else next

-- `if not packets: raise`
unfoldable pub some_packets : List Bytes → Result (List Bytes)
some_packets [] = err (value_error "fuzzer input has no packets")
some_packets (p ∷ ps) = ok (p ∷ ps)

-- A round takes two bytes at least, so `len(data)` rounds are enough.
unfoldable pub fuzzer_packets : Bytes → Result (List Bytes)
fuzzer_packets [] = err (value_error "empty fuzzer input")
fuzzer_packets (flags ∷ body) =
    if bit_and flags 0x02 == 0
    then ok (body ∷ [])
    else (do packets ← packets_loop (length body) body []; some_packets packets)
