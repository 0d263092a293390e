-- ===== src/Corpus/WebSocket/Unmask.antt =====
-- A masked frame (RFC 6455, section 5) is read back: its opcode, and the payload that was masked.
use lighttpd_fuzz.Base.{
  ℕ, zero, suc, ◌+◌, ◌/◌, ◌%◌, ◌≤◌, ◌<◌, [], ◌∷◌, ◌++◌, ◌≡◌, refl, sym, ap, ◌∙◌, true, false, ltb,
  leb, ◌==◌, ◌&&◌, if◌then◌else◌, length, length-append, take, drop, take-append_length,
  drop-append_length, Option, none, some, ok, arith, bit_xor,
}
use lighttpd_fuzz.Base.Bits.{bit_and_ones, bit_or_high, passes_below, passes_below-at, eq_below}
use lighttpd_fuzz.Base.Bytes.{Bytes, IsBytes, byte_string, all_bytes_lem}
use lighttpd_fuzz.Corpus.WebSocket.{mask_byte, mask_at, masked, websocket_client_frame}

-- The mask goes round.
unfoldable pub unmask : ℕ → ℕ → ℕ → ℕ → Bytes → Bytes
unmask m₁ m₂ m₃ m₄ [] = []
unmask m₁ m₂ m₃ m₄ (b ∷ bs) = bit_xor b m₁ ∷ unmask m₂ m₃ m₄ m₁ bs

-- A final, masked frame of at most 125 bytes: its opcode, its payload and what follows.
unfoldable pub read_client_frame : Bytes → Option (ℕ × Bytes × Bytes)
unfolding unmask
read_client_frame (b₁ ∷ b₂ ∷ m₁ ∷ m₂ ∷ m₃ ∷ m₄ ∷ rest) =
    let size = b₂ % 128 in
    if b₁ / 16 == 8 && (b₂ / 128 == 1 && (leb size 125 && leb size (length rest)))
    then some (b₁ % 16, unmask m₁ m₂ m₃ m₄ (take size rest), drop size rest)
    else none
read_client_frame _ = none

mask_at-mod : (i : ℕ) → mask_at i ≡ mask_byte (i % 4)
unfolding mask_at
mask_at-mod i = ap mask_byte (bit_and_ones i 2)

mask_round : (i : ℕ) → mask_at (i + 1 + 3) ≡ mask_at i
mask_round i =
    mask_at-mod (i + 1 + 3)
    ∙ ap mask_byte (let e : (i + 1 + 3) % 4 ≡ i % 4 = omega arith in e)
    ∙ sym (mask_at-mod i)

twice_byte :
    (m : ℕ) → m < 4 → (b : ℕ) → b < 256 → bit_xor (bit_xor b (mask_byte m)) (mask_byte m) ≡ b
unfolding mask_byte passes_below
twice_byte zero h = eq_below 256 _ _ refl
twice_byte (suc zero) h = eq_below 256 _ _ refl
twice_byte (suc (suc zero)) h = eq_below 256 _ _ refl
twice_byte (suc (suc (suc m))) h = eq_below 256 _ _ refl

unmask_byte : (i b : ℕ) → b < 256 → bit_xor (bit_xor b (mask_at i)) (mask_at i) ≡ b
unmask_byte i b h = rw (mask_at-mod i) (twice_byte (i % 4) (omega arith) b h)

masked_byte : (m : ℕ) → m < 4 → (b : ℕ) → b < 256 → ltb (bit_xor b (mask_byte m)) 256 ≡ true
unfolding mask_byte passes_below
masked_byte zero h b = passes_below-at (λ b. ltb (bit_xor b 0x11) 256) 256 refl b
masked_byte (suc zero) h b = passes_below-at (λ b. ltb (bit_xor b 0x22) 256) 256 refl b
masked_byte (suc (suc zero)) h b = passes_below-at (λ b. ltb (bit_xor b 0x33) 256) 256 refl b
masked_byte (suc (suc (suc m))) h b = passes_below-at (λ b. ltb (bit_xor b 0x44) 256) 256 refl b

masked-IsBytes : (i : ℕ) (payload : Bytes) → IsBytes payload → IsBytes (masked i payload)
unfolding masked
masked-IsBytes i [] h = tt
masked-IsBytes i (b ∷ bs) (h, hs) =
    let e : ltb (bit_xor b (mask_at i)) 256 ≡ true =
      rw (mask_at-mod i) (masked_byte (i % 4) (omega arith) b h) in
    (ground arith, masked-IsBytes (i + 1) bs hs)

length-masked : (i : ℕ) (payload : Bytes) → length (masked i payload) ≡ length payload
unfolding masked
length-masked i [] = refl
length-masked i (b ∷ bs) = ap suc (length-masked (i + 1) bs)

unmask-masked :
    (i : ℕ) (payload : Bytes)
    → IsBytes payload
    → unmask
        (mask_at i)
        (mask_at (i + 1))
        (mask_at (i + 1 + 1))
        (mask_at (i + 1 + 2))
        (masked i payload)
      ≡ payload
unfolding unmask masked
unmask-masked i [] h = refl
unmask-masked i (b ∷ bs) (h, hs) =
    let third : i + 1 + 1 + 1 ≡ i + 1 + 2 = omega arith in
    let fourth : i + 1 + 1 + 2 ≡ i + 1 + 3 = omega arith in
    cc (
      unmask_byte i b h,
      ap mask_at third,
      ap mask_at fourth ∙ mask_round i,
      unmask-masked (i + 1) bs hs,
    )

seed_mask :
    (payload : Bytes) → IsBytes payload → unmask 0x11 0x22 0x33 0x44 (masked 0 payload) ≡ payload
unfolding mask_at mask_byte
seed_mask payload h = unmask-masked 0 payload h

byte_string-of_bytes : (bs : Bytes) → IsBytes bs → byte_string bs ≡ ok bs
unfolding byte_string
byte_string-of_bytes bs h = rw (all_bytes_lem bs h)

-- The frame in plain arithmetic.
abbrev frame_bytes : Bytes → ℕ → Bytes
frame_bytes payload opcode =
    (128 + opcode) ∷ (128 + length payload) ∷ 0x11 ∷ 0x22 ∷ 0x33 ∷ 0x44 ∷ masked 0 payload

module _ (payload : Bytes) (opcode : ℕ) where
  frame_lem :
      IsBytes payload
      → length payload ≤ 125
      → opcode < 16
      → websocket_client_frame payload opcode ≡ ok (frame_bytes payload opcode)
  unfolding websocket_client_frame
  frame_lem h n o =
      let short : ltb 125 (length payload) ≡ false = ground arith in
      rw (
        short,
        byte_string-of_bytes (masked 0 payload) (masked-IsBytes 0 payload h),
        bit_or_high 7 1 opcode (omega arith) (omega arith) (omega arith),
        bit_or_high 7 1 (length payload) (omega arith) (omega arith) (omega arith),
        byte_string-of_bytes ((128 + opcode) ∷ (128 + length payload) ∷ []) (omega arith),
      )

  read_lem :
      (rest : Bytes)
      → IsBytes payload
      → length payload ≤ 125
      → opcode < 16
      → read_client_frame (frame_bytes payload opcode ++ rest) ≡ some (opcode, payload, rest)
  unfolding read_client_frame
  read_lem rest h n o =
      let size : (128 + length payload) % 128 ≡ length (masked 0 payload) =
        omega (arith, length-masked 0 payload) in
      rw
        (
          size,
          take-append_length (masked 0 payload) rest,
          drop-append_length (masked 0 payload) rest,
        )
        (ground (
          arith,
          length-masked 0 payload,
          length-append (masked 0 payload) rest,
          seed_mask payload h,
        ))

-- For an opcode below 16 and a payload of at most 125 bytes, `websocket_client_frame` returns a frame
-- that a server reads: final, masked, with the opcode and, unmasked, the payload.
pub read_client_frame-websocket_client_frame :
    (payload : Bytes) (opcode : ℕ)
    → IsBytes payload
    → length payload ≤ 125
    → opcode < 16
    → (out : Bytes) × (websocket_client_frame payload opcode ≡ ok out)
      × ((rest : Bytes) → read_client_frame (out ++ rest) ≡ some (opcode, payload, rest))
read_client_frame-websocket_client_frame payload opcode h n o = (
  frame_bytes payload opcode,
  frame_lem payload opcode h n o,
  λ rest. read_lem payload opcode rest h n o,
)
