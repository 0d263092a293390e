-- ===== src/Tests/Http2.antt =====
-- Frames and fields of HTTP/2, and a frame of a websocket.
use lighttpd_fuzz.Base.{◌%◌, ◌^◌, ◌*◌, [], ◌∷◌, ◌++◌, ◌≡◌, refl, true, some, ok, arith}
use lighttpd_fuzz.Base.Bytes.{Bytes, codes, byte_string}
use lighttpd_fuzz.Corpus.Http2.{
  h2_frame, hpack_loop, hpack_integer, hpack_raw_string, hpack_literal, hpack_literal_name,
  join_literals, method_field, request_block, connect_block, h2_request_headers,
  h2_extended_connect_headers,
}
use lighttpd_fuzz.Corpus.Http2.Wire.{read_frame}
use lighttpd_fuzz.Corpus.Http2.Integers.{IsInteger, hpack_integer-IsInteger}
use lighttpd_fuzz.Corpus.Http2.Frames.{read_frame-h2_frame}
use lighttpd_fuzz.Corpus.Http2.Requests.{
  IsHeadersFrame, request_header_list, connect_header_list, h2_request_headers-IsHeadersFrame,
  h2_extended_connect_headers-IsHeadersFrame,
}
use lighttpd_fuzz.Corpus.WebSocket.{websocket_client_frame}
use lighttpd_fuzz.Corpus.WebSocket.Unmask.{
  read_client_frame, read_client_frame-websocket_client_frame,
}

-- RFC 7541, appendix C.1.2: 1337 with a prefix of five bits.
integer_1337 : hpack_integer 1337 5 0 ≡ ok (31 ∷ 154 ∷ 10 ∷ [])
unfolding hpack_integer hpack_loop byte_string
integer_1337 = refl

abbrev get_block : Bytes
get_block = 0x82 ∷ 0x86 ∷ 4 ∷ 1 ∷ codes "/" ++ 1 ∷ 9 ∷ codes "localhost"

get_root_block : request_block (codes "GET") (codes "/") [] ≡ ok get_block
unfolding request_block method_field hpack_literal hpack_raw_string hpack_integer byte_string
    join_literals
get_root_block = refl

abbrev ping : Bytes
ping = codes "fuzzping"

hpack_integer-IsInteger_example :
    (out : Bytes) × (hpack_integer 1337 5 (0 * 2 ^ 5) ≡ ok out) × IsInteger 5 0 1337 out
hpack_integer-IsInteger_example = hpack_integer-IsInteger 1337 5 0 (omega arith) (omega arith)

read_frame-h2_frame_example :
    (out : Bytes) × (h2_frame 6 0 0 ping ≡ ok out)
    × ((rest : Bytes)
        → read_frame (out ++ rest)
          ≡ some
              (record { frame_type = 6; flags = 0; stream_id = 0 % 2 ^ 31; payload = ping }, rest))
read_frame-h2_frame_example =
    read_frame-h2_frame 6 0 0 ping (omega arith) (omega arith) (omega arith)

h2_request_headers-IsHeadersFrame_example :
    (out : Bytes) × (h2_request_headers (codes "GET") (codes "/") true [] 1 ≡ ok out)
    × IsHeadersFrame 5 1 (request_header_list (codes "GET") (codes "/") []) out
h2_request_headers-IsHeadersFrame_example =
    h2_request_headers-IsHeadersFrame (codes "GET") (codes "/") true [] 1 get_block get_root_block
      (omega arith)

abbrev ws_block : Bytes
ws_block =
    2 ∷ 7 ∷ codes "CONNECT"
    ++ 0x86 ∷ 4 ∷ 7 ∷ codes "/h2-ws/"
    ++ 1 ∷ 9 ∷ codes "localhost"
    ++ 0 ∷ 9 ∷ codes ":protocol"
    ++ 9 ∷ codes "websocket"
    ++ 0 ∷ 21 ∷ codes "sec-websocket-version"
    ++ 2 ∷ codes "13"
    ++ 0 ∷ 6 ∷ codes "origin"
    ++ 16 ∷ codes "http://localhost"

ws_connect_block : connect_block (codes "/h2-ws/") ≡ ok ws_block
unfolding connect_block hpack_literal hpack_literal_name hpack_raw_string hpack_integer byte_string
ws_connect_block = refl

h2_extended_connect_headers-IsHeadersFrame_example :
    (out : Bytes) × (h2_extended_connect_headers (codes "/h2-ws/") 1 ≡ ok out)
    × IsHeadersFrame 4 1 (connect_header_list (codes "/h2-ws/")) out
h2_extended_connect_headers-IsHeadersFrame_example =
    h2_extended_connect_headers-IsHeadersFrame (codes "/h2-ws/") 1 ws_block ws_connect_block
      (omega arith)

read_client_frame-websocket_client_frame_example :
    (out : Bytes) × (websocket_client_frame ping 2 ≡ ok out)
    × ((rest : Bytes) → read_client_frame (out ++ rest) ≡ some (2, ping, rest))
read_client_frame-websocket_client_frame_example =
    read_client_frame-websocket_client_frame ping 2 (omega arith) (omega arith) (omega arith)
