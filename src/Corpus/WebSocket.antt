-- ===== src/Corpus/WebSocket.antt =====
-- `websocket_client_frame` of normalize-corpus-flags.py.
pub mod Unmask
use lighttpd_fuzz.Base.{
  ℕ, zero, suc, ◌+◌, List, [], ◌∷◌, ◌++◌, ltb, bit_and, bit_or, bit_xor, length, Result, ok,
  value_error, raise_if, ◌>>=◌, ◌>>◌,
}
use lighttpd_fuzz.Base.Bytes.{Bytes, byte_string}

pub mask_byte : ℕ → ℕ
mask_byte zero = 0x11
mask_byte (suc zero) = 0x22
mask_byte (suc (suc zero)) = 0x33
mask_byte _ = 0x44

-- `mask[index & 3]` for `mask = b"\x11\x22\x33\x44"`.
unfoldable pub mask_at : ℕ → ℕ
unfolding mask_byte
mask_at index = mask_byte (bit_and index 3)

-- `byte ^ mask[index & 3] for index, byte in enumerate(payload)`, from `index` on.
unfoldable pub masked : ℕ → Bytes → Bytes
masked index [] = []
masked index (byte ∷ payload) = bit_xor byte (mask_at index) ∷ masked (index + 1) payload

unfoldable pub websocket_client_frame : Bytes → ℕ → Result Bytes
websocket_client_frame payload opcode = do
  raise_if (ltb 125 (length payload)) (value_error "seed websocket payload is too large")
  body ← byte_string (masked 0 payload)
  head ← byte_string (bit_or 0x80 opcode ∷ bit_or 0x80 (length payload) ∷ [])
  ok (head ++ ((0x11 ∷ 0x22 ∷ 0x33 ∷ 0x44 ∷ []) ++ body))
