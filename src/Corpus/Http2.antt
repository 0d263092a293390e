-- ===== src/Corpus/Http2.antt =====
-- HTTP/2 frames and HPACK literals of normalize-corpus-flags.py.
pub mod Wire
pub mod Integers
pub mod Strings
pub mod Frames
pub mod Blocks
pub mod Requests
use lighttpd_fuzz.Base.{
  ℕ, zero, suc, ◌-◌, ◌/◌, ◌^◌, String, List, [], ◌∷◌, ◌++◌, Bool, true, false, ltb, leb, bit_and,
  bit_or, if◌then◌else◌, length, Result, ok, err, value_error, raise_if, ◌>>=◌, ◌>>◌,
}
use lighttpd_fuzz.Base.Bytes.{Bytes, to_bytes, byte_string, codes, bytes_eq}

unfoldable pub h2_frame : ℕ → ℕ → ℕ → Bytes → Result Bytes
h2_frame frame_type flags stream_id payload = do
  raise_if (ltb 0xffffff (length payload)) (value_error "HTTP/2 frame payload is too large")
  size ← to_bytes (length payload) 3
  kind ← byte_string (frame_type ∷ flags ∷ [])
  stream ← to_bytes (bit_and stream_id 0x7fffffff) 4
  ok (size ++ (kind ++ (stream ++ payload)))

-- The `while value >= 128` loop. Each round divides `value` by 128, so a fuel of `value` is enough.
unfoldable pub hpack_loop : ℕ → ℕ → Bytes → Bytes
hpack_loop zero value result = result ++ value ∷ []
hpack_loop (suc fuel) value result =
    let next = hpack_loop fuel (value / 128) (result ++ bit_or (bit_and value 0x7f) 0x80 ∷ []) in
    if leb 128 value then next else result ++ value ∷ []

unfoldable pub hpack_integer : ℕ → ℕ → ℕ → Result Bytes
hpack_integer value prefix_bits first_byte =
    let prefix_max = 2 ^ prefix_bits - 1 in
    if ltb value prefix_max then byte_string (bit_or first_byte value ∷ []) else (do
      result ← byte_string (bit_or first_byte prefix_max ∷ [])
      ok (hpack_loop (value - prefix_max) (value - prefix_max) result))

unfoldable pub hpack_raw_string : Bytes → Result Bytes
hpack_raw_string value = do size ← hpack_integer (length value) 7 0; ok (size ++ value)

unfoldable pub hpack_literal : ℕ → Bytes → Result Bytes
hpack_literal index value = do
  name ← hpack_integer index 4 0
  text ← hpack_raw_string value
  ok (name ++ text)

unfoldable pub hpack_literal_name : Bytes → Bytes → Result Bytes
hpack_literal_name name value = do
  n ← hpack_raw_string name
  v ← hpack_raw_string value
  ok (0 ∷ (n ++ v))

-- `b"".join(hpack_literal_name(name, value) for name, value in headers)`
unfoldable pub join_literals : List (Bytes × Bytes) → Result Bytes
join_literals [] = ok []
join_literals ((name, value) ∷ headers) = do
  field ← hpack_literal_name name value
  rest ← join_literals headers
  ok (field ++ rest)

unfoldable pub method_field : Bytes → Result Bytes
method_field method =
    if bytes_eq method (codes "GET") then ok (0x82 ∷ []) else hpack_literal 2 method

-- The payload of the frame that `h2_request_headers` makes.
unfoldable pub request_block : Bytes → Bytes → List (Bytes × Bytes) → Result Bytes
request_block method path headers = do
  m ← method_field method
  p ← hpack_literal 4 path
  a ← hpack_literal 1 (codes "localhost")
  rest ← join_literals headers
  ok (m ++ (0x86 ∷ (p ++ (a ++ rest))))

unfoldable pub h2_request_headers : Bytes → Bytes → Bool → List (Bytes × Bytes) → ℕ → Result Bytes
h2_request_headers method path end_stream headers stream_id = do
  block ← request_block method path headers
  h2_frame 0x01 (bit_or 0x04 (if end_stream then 0x01 else 0)) stream_id block

-- The payload of the frame that `h2_extended_connect_headers` makes.
unfoldable pub connect_block : Bytes → Result Bytes
connect_block path = do
  m ← hpack_literal 2 (codes "CONNECT")
  p ← hpack_literal 4 path
  a ← hpack_literal 1 (codes "localhost")
  protocol ← hpack_literal_name (codes ":protocol") (codes "websocket")
  version ← hpack_literal_name (codes "sec-websocket-version") (codes "13")
  origin ← hpack_literal_name (codes "origin") (codes "http://localhost")
  ok (m ++ (0x86 ∷ (p ++ (a ++ (protocol ++ (version ++ origin))))))

unfoldable pub h2_extended_connect_headers : Bytes → ℕ → Result Bytes
h2_extended_connect_headers path stream_id = do
  block ← connect_block path
  h2_frame 0x01 0x04 stream_id block
