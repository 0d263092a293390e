-- ===== src/Framing/Reader.antt =====
-- The loop of `fuzzer_packets`, against the framing.
use lighttpd_fuzz.Base.{
  ℕ, zero, suc, ◌+◌, ◌/◌, ◌%◌, ◌≤◌, ◌<◌, List, [], ◌∷◌, ◌++◌, Bool, false, ◌≡◌, refl, sym, ap, ◌∙◌,
  ◌||◌, ltb, ◌==◌, length, length-append, take, drop, length-take, take-append-drop,
  take-append_length, drop-append_length, All, All-drop, append_assoc, append-nil, Result, ok, err,
  arith, Bool-cases, inl, inr,
}
use lighttpd_fuzz.Base.Bytes.{Bytes, IsByte, IsBytes, from_bytes}
use lighttpd_fuzz.Corpus.Packets.{valid_loop}
use lighttpd_fuzz.Send.Packets.{packets_loop}
use lighttpd_fuzz.Framing.{IsPacket, frame, frames}

-- Two bytes in front of a packet of their size.
announced :
    (hi lo : ℕ) (packet : Bytes)
    → hi < 256
    → lo < 256
    → length packet ≡ from_bytes (hi ∷ lo ∷ [])
    → frame packet ≡ hi ∷ lo ∷ packet
announced hi lo packet h k e =
    let a : length packet / 256 % 256 ≡ hi = omega arith in
    let b : length packet % 256 ≡ lo = omega arith in rw (a, b)

pub record Read (content : Bytes) (before after : List Bytes) : Type 0 where
  pub packets : List Bytes
  pub appended : after ≡ before ++ packets
  pub framed : content ≡ frames packets
  pub are_packets : All IsPacket packets
  pub at_most : length after ≤ 64

-- One round of the loop: a packet of `size` bytes is cut off.
Read-round :
    (hi lo : ℕ) (rest : Bytes) (before after : List Bytes)
    → hi < 256
    → lo < 256
    → 1 ≤ from_bytes (hi ∷ lo ∷ [])
    → from_bytes (hi ∷ lo ∷ []) ≤ length rest
    → Read
        (drop (from_bytes (hi ∷ lo ∷ [])) rest)
        (before ++ take (from_bytes (hi ∷ lo ∷ [])) rest ∷ [])
        after
    → Read (hi ∷ lo ∷ rest) before after
Read-round hi lo rest before after h k pos fits r =
    let size : ℕ = from_bytes (hi ∷ lo ∷ []) in
    let packet : Bytes = take size rest in
    let sized : length packet ≡ size = omega (arith, length-take size rest) in
    record {
      packets = packet ∷ r.packets;
      appended = r.appended ∙ append_assoc before (packet ∷ []) r.packets;
      framed = sym (
          ap (λ t. t ++ frames r.packets) (announced hi lo packet h k sized)
          ∙ ap (λ t. hi ∷ lo ∷ packet ++ t) (sym r.framed)
          ∙ ap (λ t. hi ∷ lo ∷ t) (take-append-drop size rest));
      are_packets = (record { nonempty = omega arith; fits = omega arith }, r.are_packets);
      at_most = r.at_most;
    }

-- What the loop returns are the packets of the input, at most 64 of them.
pub packets_loop-Read :
    (fuel : ℕ) (content : Bytes) (before after : List Bytes)
    → IsBytes content
    → length before ≤ 64
    → packets_loop fuel content before ≡ ok after
    → Read content before after
unfolding packets_loop
packets_loop-Read fuel [] before after h n e = record {
  packets = [];
  appended = cc (append-nil before);
  framed = refl;
  are_packets = tt;
  at_most = ground arith;
}
packets_loop-Read zero (b ∷ bs) before after h n e = cc
packets_loop-Read (suc fuel) (b ∷ []) before after h n e = cc
packets_loop-Read (suc fuel) (hi ∷ lo ∷ rest) before after (h, (k, g)) n e =
    let size : ℕ = from_bytes (hi ∷ lo ∷ []) in
    let packets' : List Bytes = before ++ take size rest ∷ [] in
    elim (Bool-cases (size == 0 || ltb (length rest) size)) [
      | inl bad ↦ cc (rw bad at e)
      | inr good ↦ elim (Bool-cases (ltb 64 (length packets'))) [
        | inl many ↦ cc (rw (good, many) at e)
        | inr few ↦ Read-round hi lo rest before after h k (ground arith) (ground arith) (
            packets_loop-Read fuel (drop size rest) packets' after (All-drop IsByte size rest g)
              (ground arith) (rw (good, few) at e))
      ]
    ]

module _ (packet tail : Bytes) (p : IsPacket packet) where
  size-frame : from_bytes (length packet / 256 % 256 ∷ length packet % 256 ∷ []) ≡ length packet
  size-frame = omega arith

  packets_loop-frame :
      (fuel : ℕ) (before : List Bytes)
      → length before < 64
      → packets_loop (suc fuel) (frame packet ++ tail) before
        ≡ packets_loop fuel tail (before ++ packet ∷ [])
  unfolding packets_loop
  packets_loop-frame fuel before n =
      rw (size-frame, take-append_length packet tail, drop-append_length packet tail)
        (ground (arith, length-append packet tail, length-append before (packet ∷ [])))

-- The loop returns the packets of every framed list that is short enough.
pub packets_loop-frames :
    (fuel : ℕ) (packets before : List Bytes)
    → All IsPacket packets
    → length before + length packets ≤ 64
    → length (frames packets) ≤ fuel
    → packets_loop fuel (frames packets) before ≡ ok (before ++ packets)
packets_loop-frames fuel [] before h n f = rw append-nil (unfold packets_loop in refl)
packets_loop-frames zero (p ∷ ps) before h n f = absurd (omega arith)
packets_loop-frames (suc fuel) (p ∷ ps) before (h, hs) n f =
    packets_loop-frame p (frames ps) h fuel before (omega arith)
    ∙ packets_loop-frames fuel ps (before ++ p ∷ []) hs
        (omega (arith, length-append before (p ∷ [])))
        (omega (arith, length-append (frame p) (frames ps)))
    ∙ ap ok (append_assoc before (p ∷ []) ps)

abbrev pub has_packets : Result (List Bytes) → Bool
has_packets (ok packets) = ltb 0 (length packets)
has_packets (err e) = false

-- The two loops agree on every input, whatever was read before.
pub has_packets-packets_loop :
    (fuel : ℕ) (content : Bytes) (before : List Bytes)
    → has_packets (packets_loop fuel content before) ≡ valid_loop fuel content (length before)
unfolding packets_loop valid_loop
has_packets-packets_loop fuel [] before = refl
has_packets-packets_loop zero (b ∷ bs) before = refl
has_packets-packets_loop (suc fuel) (b ∷ []) before = refl
has_packets-packets_loop (suc fuel) (hi ∷ lo ∷ rest) before =
    let size : ℕ = from_bytes (hi ∷ lo ∷ []) in
    ground (
      arith,
      length-append before (take size rest ∷ []),
      has_packets-packets_loop fuel (drop size rest) (before ++ take size rest ∷ []),
    )
