-- ===== src/Framing/Accept.antt =====
-- Which inputs `valid_multipacket` and `fuzzer_packets` accept.
use lighttpd_fuzz.Base.{
  ℕ, ◌≤◌, List, [], ◌∷◌, ◌≡◌, ◌≢◌, refl, sym, ap, ◌∙◌, ◌↔◌, true, false, bit_and, ◌==◌, length, All,
  Result, ok, err, is_ok, ◌>>=◌, arith,
}
use lighttpd_fuzz.Base.Bytes.{Bytes, IsBytes}
use lighttpd_fuzz.Corpus.Packets.{valid_multipacket}
use lighttpd_fuzz.Send.Packets.{packets_loop, some_packets, fuzzer_packets}
use lighttpd_fuzz.Framing.{IsPacket, IsFramed, frames}
use lighttpd_fuzz.Framing.Reader.{
  Read, packets_loop-Read, packets_loop-frames, has_packets, has_packets-packets_loop,
}
use mathlib.Core.Path.{subst}

some_packets-has_packets : (r : Result (List Bytes)) → is_ok (r >>= some_packets) ≡ has_packets r
unfolding some_packets
some_packets-has_packets (ok []) = refl
some_packets-has_packets (ok (p ∷ ps)) = ground arith
some_packets-has_packets (err e) = refl

some_packets-eq_ok :
    (r : Result (List Bytes)) (packets : List Bytes)
    → ((r >>= some_packets) ≡ ok packets) ↔ ((r ≡ ok packets) × (1 ≤ length packets))
unfolding some_packets
some_packets-eq_ok (ok []) packets = (λ e. cc, λ h. ground arith)
some_packets-eq_ok (ok (p ∷ ps)) packets = (λ e. ground arith, λ h. ground arith)
some_packets-eq_ok (err x) packets = (λ e. cc, λ h. ground arith)

module _ (content : Bytes) (h : IsBytes content) (packets : List Bytes) where
  loop-IsFramed :
      packets_loop (length content) content [] ≡ ok packets
      → 1 ≤ length packets
      → IsFramed content packets
  loop-IsFramed e n =
      let r : Read content [] packets =
        packets_loop-Read (length content) content [] packets h (omega arith) e in
      record {
        framed = r.framed ∙ ap frames (sym r.appended);
        are_packets = subst (All IsPacket) (sym r.appended) r.are_packets;
        some_packet = n;
        at_most = r.at_most;
      }

module _ (content : Bytes) (packets : List Bytes) where
  loop_of-IsFramed :
      IsFramed content packets → packets_loop (length content) content [] ≡ ok packets
  loop_of-IsFramed f =
      ap (λ c. packets_loop (length content) c []) f.framed
      ∙ packets_loop-frames (length content) packets [] f.are_packets
          (let n = f.at_most in omega arith) (omega (arith, ap (λ (c : Bytes). length c) f.framed))

-- With the multipacket flag set, `fuzzer_packets` returns a list of packets exactly when the bytes
-- behind the flags are the framing of these packets, one to 64 of 1 to 65535 bytes each.
pub fuzzer_packets_iff :
    (flags : ℕ) (body : Bytes) (packets : List Bytes)
    → bit_and flags 2 ≢ 0
    → IsBytes body
    → (fuzzer_packets (flags ∷ body) ≡ ok packets) ↔ IsFramed body packets
unfolding fuzzer_packets
fuzzer_packets_iff flags body packets f h =
    let set : (bit_and flags 2 == 0) ≡ false = ground arith in
    let (cut, join) = some_packets-eq_ok (packets_loop (length body) body []) packets in
    (
      λ e. let (l, n) = cut (rw set at e) in loop-IsFramed body h packets l n,
      λ i. rw set (join (loop_of-IsFramed body packets i, i.some_packet)),
    )

-- With the multipacket flag set, `fuzzer_packets` raises exactly on the inputs that
-- `valid_multipacket` refuses: the two programs agree on every input.
pub fuzzer_packets_agrees :
    (flags : ℕ) (body : Bytes)
    → bit_and flags 2 ≢ 0
    → is_ok (fuzzer_packets (flags ∷ body)) ≡ valid_multipacket body
unfolding fuzzer_packets valid_multipacket
fuzzer_packets_agrees flags body f =
    let set : (bit_and flags 2 == 0) ≡ false = ground arith in
    rw set (
      some_packets-has_packets (packets_loop (length body) body [])
      ∙ has_packets-packets_loop (length body) body [])

-- An input of bytes passes `valid_multipacket` exactly when it is the framing of one to 64 packets
-- of 1 to 65535 bytes each.
pub valid_multipacket_iff :
    (content : Bytes)
    → IsBytes content
    → (valid_multipacket content ≡ true) ↔ ((packets : List Bytes) × IsFramed content packets)
unfolding valid_multipacket
valid_multipacket_iff content h =
    let agree = has_packets-packets_loop (length content) content [] in
    (
      λ e.
          let (packets, l, n) = of_has (packets_loop (length content) content []) (agree ∙ e) in
          (packets, loop-IsFramed content h packets l n),
      λ p.
          let (packets, i) = p in
          sym agree
          ∙ rw (loop_of-IsFramed content packets i) (let n = i.some_packet in ground arith),
    )
  where
    of_has :
        (r : Result (List Bytes))
        → has_packets r ≡ true
        → (packets : List Bytes) × (r ≡ ok packets) × (1 ≤ length packets)
    of_has (ok packets) e = (packets, refl, ground arith)
    of_has (err x) e = cc
