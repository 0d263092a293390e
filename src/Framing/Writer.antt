-- ===== src/Framing/Writer.antt =====
-- What `multipacket` writes.
use lighttpd_fuzz.Base.{
  ℕ, ◌≤◌, ◌<◌, ◌^◌, List, [], ◌∷◌, ◌++◌, ◌≡◌, ◌≢◌, refl, sym, ap, ◌∙◌, ◌↔◌, true, false, bit_and,
  length, All, All-append, append_assoc, append-nil, ok, is_ok, arith, inl, inr, Bool-cases, ltb,
  leb,
}
use lighttpd_fuzz.Base.Bytes.{Bytes, IsByte, IsBytes, to_be, to_bytes, to_be-IsBytes}
use lighttpd_fuzz.Corpus.Packets.{extend_packets, multipacket, valid_multipacket}
use lighttpd_fuzz.Send.Packets.{fuzzer_packets}
use lighttpd_fuzz.Framing.{IsPacket, frame, frames}
use lighttpd_fuzz.Framing.Accept.{fuzzer_packets_iff, fuzzer_packets_agrees}

-- What two bytes can say of a packet's length; an empty packet fits too.
abbrev pub Fits : Bytes → Type 0
Fits packet = length packet < 65536

fits_test : (n : ℕ) → n < 65536 → ltb n (256 ^ 2) ≡ true
fits_test n h = ground arith

extend_packets-frames :
    (packets : List Bytes) (result : Bytes)
    → All Fits packets
    → extend_packets result packets ≡ ok (result ++ frames packets)
unfolding extend_packets to_bytes
extend_packets-frames [] result h = ap ok (sym (append-nil result))
extend_packets-frames (p ∷ ps) result (h, hs) = rw (fits_test (length p) h) (
    extend_packets-frames ps (result ++ frame p) hs
    ∙ ap ok (append_assoc result (frame p) (frames ps)))

extend_Fits-of_packets :
    (packets : List Bytes) (result : Bytes) {out : Bytes}
    → extend_packets result packets ≡ ok out
    → All Fits packets
unfolding extend_packets to_bytes
extend_Fits-of_packets [] result e = tt
extend_Fits-of_packets (p ∷ ps) result e = elim (Bool-cases (ltb (length p) (256 ^ 2))) [
  | inl fits ↦ (ground arith, extend_Fits-of_packets ps (result ++ frame p) (rw fits at e))
  | inr long ↦ cc (rw long at e)
]

-- `multipacket` returns exactly when the flags are a byte and every packet has fewer than 65536
-- bytes, and what it returns are the flags and the packets, each behind its length.
pub multipacket_iff :
    (flags : ℕ) (packets : List Bytes) (out : Bytes)
    → (multipacket flags packets ≡ ok out)
      ↔ ((flags < 256) × All Fits packets × (out ≡ flags ∷ frames packets))
unfolding multipacket
multipacket_iff flags packets out = (
  λ e. elim (Bool-cases (leb 256 flags)) [
    | inl wide ↦ cc (rw wide at e)
    | inr byte ↦
        let r = rw byte at e in
        let fits = extend_Fits-of_packets packets (flags ∷ []) r in
        (ground arith, fits, cc (r, extend_packets-frames packets (flags ∷ []) fits))
  ],
  λ h.
      let byte : leb 256 flags ≡ false = (let n = h.0 in ground arith) in
      rw byte (extend_packets-frames packets (flags ∷ []) h.1 ∙ ap ok (sym h.2)),
)

Fits-of_packets : (packets : List Bytes) → All IsPacket packets → All Fits packets
Fits-of_packets [] h = tt
Fits-of_packets (p ∷ ps) (h, hs) = (h.fits, Fits-of_packets ps hs)

frames-IsBytes : (packets : List Bytes) → All IsBytes packets → IsBytes (frames packets)
frames-IsBytes [] h = tt
frames-IsBytes (p ∷ ps) (h, hs) =
    All-append IsByte (frame p) (frames ps)
      (All-append IsByte (to_be 2 (length p)) p (to_be-IsBytes 2 (length p)) h)
      (frames-IsBytes ps hs)

-- What `multipacket` writes for one to 64 packets of 1 to 65535 bytes, under flags with the
-- multipacket flag, is read back by `fuzzer_packets` as these packets, and its body passes
-- `valid_multipacket`.
pub fuzzer_packets-multipacket :
    (flags : ℕ) (packets : List Bytes)
    → flags < 256
    → bit_and flags 2 ≢ 0
    → All IsBytes packets
    → All IsPacket packets
    → 1 ≤ length packets
    → length packets ≤ 64
    → (multipacket flags packets ≡ ok (flags ∷ frames packets))
      × (fuzzer_packets (flags ∷ frames packets) ≡ ok packets)
      × (valid_multipacket (frames packets) ≡ true)
fuzzer_packets-multipacket flags packets f b i h n m =
    let back =
      (fuzzer_packets_iff flags (frames packets) packets b (frames-IsBytes packets i)).1
        (record { framed = refl; are_packets = h; some_packet = n; at_most = m }) in
    (
      (multipacket_iff flags packets _).1 (f, Fits-of_packets packets h, refl),
      back,
      sym (fuzzer_packets_agrees flags (frames packets) b) ∙ ap is_ok back,
    )
