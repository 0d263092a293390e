-- ===== src/Corpus/Http2/Frames.antt =====
-- What `h2_frame` writes.
use lighttpd_fuzz.Base.{
  ℕ, ◌%◌, ◌^◌, ◌≤◌, ◌<◌, [], ◌∷◌, ◌++◌, ◌≡◌, ap, true, false, ltb, length, some, ok, arith, is_ok,
  ◌↔◌,
}
use lighttpd_fuzz.Base.Bits.{bit_and_ones}
use lighttpd_fuzz.Base.Bytes.{Bytes, byte_string, to_bytes, to_be, from_bytes}
use lighttpd_fuzz.Corpus.Http2.{h2_frame}
use lighttpd_fuzz.Corpus.Http2.Wire.{read_frame}
use lighttpd_fuzz.Corpus.Http2.Integers.{split_at-append}

abbrev pub frame_bytes : ℕ → ℕ → ℕ → Bytes → Bytes
frame_bytes frame_type flags stream_id payload =
    to_be 3 (length payload)
    ++ ((frame_type ∷ flags ∷ []) ++ (to_be 4 (stream_id % 2 ^ 31) ++ payload))

to_bytes-of_lt : (n width : ℕ) → n < 256 ^ width → to_bytes n width ≡ ok (to_be width n)
unfolding to_bytes
to_bytes-of_lt n width h = ground arith

byte_string_two : (a b : ℕ) → a < 256 → b < 256 → byte_string (a ∷ b ∷ []) ≡ ok (a ∷ b ∷ [])
unfolding byte_string
byte_string_two a b h k = ground arith

module _ (frame_type flags stream_id : ℕ) (payload : Bytes) where
  h2_frame-frame_bytes :
      frame_type < 256
      → flags < 256
      → length payload ≤ 0xffffff
      → h2_frame frame_type flags stream_id payload
        ≡ ok (frame_bytes frame_type flags stream_id payload)
  unfolding h2_frame
  h2_frame-frame_bytes t f n =
      let fits : ltb 0xffffff (length payload) ≡ false = ground arith in
      rw (
        fits,
        to_bytes-of_lt (length payload) 3 (omega arith),
        byte_string_two frame_type flags t f,
        bit_and_ones stream_id 31,
        to_bytes-of_lt (stream_id % 2 ^ 31) 4 (omega arith),
      )

  read_frame-frame_bytes :
      (rest : Bytes)
      → length payload ≤ 0xffffff
      → read_frame (frame_bytes frame_type flags stream_id payload ++ rest)
        ≡ some (
          record {
            frame_type = frame_type;
            flags = flags;
            stream_id = stream_id % 2 ^ 31;
            payload = payload;
          },
          rest,
        )
  unfolding read_frame
  read_frame-frame_bytes rest n =
      let size : from_bytes (to_be 3 (length payload)) ≡ length payload = omega arith in
      let stream : from_bytes (to_be 4 (stream_id % 2 ^ 31)) % 2 ^ 31 ≡ stream_id % 2 ^ 31 =
        omega arith in
      rw (size, stream, split_at-append payload rest)

  -- Below 2 ^ 24 bytes of payload, under a type and flags that are bytes, `h2_frame` returns a frame
  -- that is read back with its type, its flags, the 31 low bits of its stream and its payload.
  pub read_frame-h2_frame :
      frame_type < 256
      → flags < 256
      → length payload ≤ 0xffffff
      → (out : Bytes) × (h2_frame frame_type flags stream_id payload ≡ ok out)
        × ((rest : Bytes)
            → read_frame (out ++ rest)
              ≡ some (
                record {
                  frame_type = frame_type;
                  flags = flags;
                  stream_id = stream_id % 2 ^ 31;
                  payload = payload;
                },
                rest,
              ))
  read_frame-h2_frame t f n = (
    frame_bytes frame_type flags stream_id payload,
    h2_frame-frame_bytes t f n,
    λ rest. read_frame-frame_bytes rest n,
  )

  -- `h2_frame` returns exactly for a type and flags that are bytes and at most 2 ^ 24 - 1 bytes of
  -- payload; the stream may be any number.
  pub h2_frame_iff :
      (is_ok (h2_frame frame_type flags stream_id payload) ≡ true)
      ↔ ((frame_type < 256) × (flags < 256) × (length payload ≤ 0xffffff))
  h2_frame_iff = (
    λ e. unfold h2_frame byte_string in ground arith,
    λ h. ap is_ok (h2_frame-frame_bytes h.0 h.1 h.2),
  )
