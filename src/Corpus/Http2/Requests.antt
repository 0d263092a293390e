-- ===== src/Corpus/Http2/Requests.antt =====
-- The headers that the requests of `h2_request_headers` and `h2_extended_connect_headers` carry.
use lighttpd_fuzz.Base.{
  ℕ, ◌%◌, ◌^◌, ◌≤◌, ◌<◌, List, [], ◌∷◌, ◌++◌, ◌≡◌, refl, Bool, true, false, if◌then◌else◌, length,
  append-nil, some, ok, arith, bit_or,
}
use lighttpd_fuzz.Base.Bytes.{Bytes, codes}
use lighttpd_fuzz.Corpus.Http2.{
  h2_frame, request_block, h2_request_headers, connect_block, h2_extended_connect_headers,
}
use lighttpd_fuzz.Corpus.Http2.Wire.{
  Header, indexed, literal, named, header, static_entry, read_headers, read_frame,
}
use lighttpd_fuzz.Corpus.Http2.Strings.{hpack_literal-IsField, hpack_literal_name-IsField}
use lighttpd_fuzz.Corpus.Http2.Frames.{read_frame-h2_frame}
use lighttpd_fuzz.Corpus.Http2.Blocks.{
  IsBlock, IsBlock-nil, IsBlock-cons, IsBlock-read_headers, IsField-indexed, join_literals-IsBlock,
  method_field-IsField,
}

abbrev pub request_header_list : Bytes → Bytes → List Header → List Header
request_header_list method path headers =
    (codes ":method", method)
    ∷ (codes ":scheme", codes "http")
    ∷ (codes ":path", path)
    ∷ (codes ":authority", codes "localhost")
    ∷ headers

scheme_http : header (indexed 6) ≡ some (codes ":scheme", codes "http")
unfolding header static_entry
scheme_http = refl

at_path : (path : Bytes) → header (literal 4 path) ≡ some (codes ":path", path)
unfolding header static_entry
at_path path = refl

at_authority : header (literal 1 (codes "localhost")) ≡ some (codes ":authority", codes "localhost")
unfolding header static_entry
at_authority = refl

request_block-IsBlock :
    (method path : Bytes) (headers : List Header)
    → (out : Bytes) × (request_block method path headers ≡ ok out)
      × IsBlock (request_header_list method path headers) out
unfolding request_block
request_block-IsBlock method path headers =
    let (m, f, e₁, i₁, h₁) = method_field-IsField method in
    let (p, e₂, i₂) = hpack_literal-IsField 4 path (omega arith) in
    let (a, e₃, i₃) = hpack_literal-IsField 1 (codes "localhost") (omega arith) in
    let (rest, e₄, k) = join_literals-IsBlock headers in
    (
      m ++ (0x86 ∷ (p ++ (a ++ rest))),
      rw (e₁, e₂, e₃, e₄),
      IsBlock-cons f _ _ m _ h₁ i₁ (
          IsBlock-cons (indexed 6) _ _ (0x86 ∷ []) _ scheme_http
            (IsField-indexed 0x86 6 refl (omega arith))
            (IsBlock-cons (literal 4 path) _ _ p _ (at_path path) i₂
              (IsBlock-cons (literal 1 (codes "localhost")) _ _ a _ at_authority i₃ k))),
    )

-- What a frame of headers stands for: its place in the connection, and the headers in its payload.
pub record IsHeadersFrame (flags stream_id : ℕ) (headers : List Header) (out : Bytes) : Type 0 where
  pub payload : Bytes
  pub carries : read_headers payload ≡ some headers
  pub read :
      (rest : Bytes)
      → read_frame (out ++ rest)
        ≡ some (
          record {
            frame_type = 0x01;
            flags = flags;
            stream_id = stream_id % 2 ^ 31;
            payload = payload;
          },
          rest,
        )

-- The flags END_HEADERS (4) and, when the request has no body, END_STREAM (1).
abbrev pub request_flags : Bool → ℕ
request_flags true = 5
request_flags false = 4

flags_lem :
    (end_stream : Bool) → bit_or 0x04 (if end_stream then 0x01 else 0) ≡ request_flags end_stream
flags_lem true = refl
flags_lem false = refl

IsBlock-IsHeadersFrame :
    (flags stream_id : ℕ) (headers : List Header) (block : Bytes)
    → flags < 256
    → length block ≤ 0xffffff
    → IsBlock headers block
    → (out : Bytes) × (h2_frame 0x01 flags stream_id block ≡ ok out)
      × IsHeadersFrame flags stream_id headers out
IsBlock-IsHeadersFrame flags stream_id headers block f n k =
    let (out, e, read) = read_frame-h2_frame 0x01 flags stream_id block (omega arith) f n in
    (
      out,
      e,
      record { payload = block; carries = IsBlock-read_headers headers block k; read = read },
    )

-- `request_block` returns for every request, and an HPACK reader takes the block to the method, the
-- scheme, the path, the host and the further headers, in this order.
pub read_headers-request_block :
    (method path : Bytes) (headers : List Header)
    → (block : Bytes) × (request_block method path headers ≡ ok block)
      × (read_headers block ≡ some (request_header_list method path headers))
read_headers-request_block method path headers =
    let (block, e, k) = request_block-IsBlock method path headers in
    (block, e, IsBlock-read_headers _ block k)

-- If the block of a request has less than 2 ^ 24 bytes, `h2_request_headers` makes one frame of it.
-- The readers find in it the type HEADERS, the flag END_HEADERS, END_STREAM if asked for, the low 31
-- bits of the stream, and the headers of the request, in order.
pub h2_request_headers-IsHeadersFrame :
    (method path : Bytes) (end_stream : Bool) (headers : List Header) (stream_id : ℕ)
    (block : Bytes)
    → request_block method path headers ≡ ok block
    → length block ≤ 0xffffff
    → (out : Bytes) × (h2_request_headers method path end_stream headers stream_id ≡ ok out)
      × IsHeadersFrame
          (request_flags end_stream)
          stream_id
          (request_header_list method path headers)
          out
unfolding h2_request_headers
h2_request_headers-IsHeadersFrame method path end_stream headers stream_id block e n =
    let (block', e', k) = request_block-IsBlock method path headers in
    let same : block' ≡ block = cc (e, e') in
    let (out, e'', frame) =
      IsBlock-IsHeadersFrame (request_flags end_stream) stream_id _ block (small end_stream) n
        (rw same at k) in
    (out, rw (e, flags_lem end_stream) e'', frame)
  where
    small : (b : Bool) → request_flags b < 256
    small true = omega arith
    small false = omega arith

abbrev pub connect_header_list : Bytes → List Header
connect_header_list path =
    (codes ":method", codes "CONNECT")
    ∷ (codes ":scheme", codes "http")
    ∷ (codes ":path", path)
    ∷ (codes ":authority", codes "localhost")
    ∷ (codes ":protocol", codes "websocket")
    ∷ (codes "sec-websocket-version", codes "13")
    ∷ (codes "origin", codes "http://localhost")
    ∷ []

at_connect : header (literal 2 (codes "CONNECT")) ≡ some (codes ":method", codes "CONNECT")
unfolding header static_entry
at_connect = refl

named_headers : (name value : Bytes) → header (named name value) ≡ some (name, value)
unfolding header
named_headers name value = refl

connect_block-IsBlock :
    (path : Bytes)
    → (out : Bytes) × (connect_block path ≡ ok out) × IsBlock (connect_header_list path) out
unfolding connect_block
connect_block-IsBlock path =
    let (m, e₁, i₁) = hpack_literal-IsField 2 (codes "CONNECT") (omega arith) in
    let (p, e₂, i₂) = hpack_literal-IsField 4 path (omega arith) in
    let (a, e₃, i₃) = hpack_literal-IsField 1 (codes "localhost") (omega arith) in
    let (r, e₄, i₄) = hpack_literal_name-IsField (codes ":protocol") (codes "websocket") in
    let (v, e₅, i₅) = hpack_literal_name-IsField (codes "sec-websocket-version") (codes "13") in
    let (o, e₆, i₆) = hpack_literal_name-IsField (codes "origin") (codes "http://localhost") in
    (
      m ++ (0x86 ∷ (p ++ (a ++ (r ++ (v ++ o))))),
      rw (e₁, e₂, e₃, e₄, e₅, e₆),
      IsBlock-cons _ _ _ m _ at_connect i₁ (
          IsBlock-cons _ _ _ (0x86 ∷ []) _ scheme_http (IsField-indexed 0x86 6 refl (omega arith)) (
            IsBlock-cons _ _ _ p _ (at_path path) i₂ (
              IsBlock-cons _ _ _ a _ at_authority i₃ (
                IsBlock-cons _ _ _ r _ (named_headers _ _) i₄ (
                  IsBlock-cons _ _ _ v _ (named_headers _ _) i₅ (
                    rw (← append-nil o)
                      (IsBlock-cons _ _ _ o [] (named_headers _ _) i₆ IsBlock-nil))))))),
    )

-- If the block of an extended CONNECT has less than 2 ^ 24 bytes, `h2_extended_connect_headers` makes
-- one frame of it, whose headers are those of RFC 8441 for a websocket to the path.
pub h2_extended_connect_headers-IsHeadersFrame :
    (path : Bytes) (stream_id : ℕ) (block : Bytes)
    → connect_block path ≡ ok block
    → length block ≤ 0xffffff
    → (out : Bytes) × (h2_extended_connect_headers path stream_id ≡ ok out)
      × IsHeadersFrame 4 stream_id (connect_header_list path) out
unfolding h2_extended_connect_headers
h2_extended_connect_headers-IsHeadersFrame path stream_id block e n =
    let (block', e', k) = connect_block-IsBlock path in
    let same : block' ≡ block = cc (e, e') in
    let (out, e'', frame) =
      IsBlock-IsHeadersFrame 4 stream_id _ block (omega arith) n (rw same at k) in
    (out, rw e e'', frame)
