-- ===== src/Tests/Handlers.antt =====
-- The theorems on the handlers of SCGI and HTTP applied to connections.
use lighttpd_fuzz.Base.{
  ◌+◌, ℕ, ◌≤◌, length, List, [], ◌∷◌, ◌++◌, ◌≡◌, refl, true, false, some, Option, ok, arith,
}
use lighttpd_fuzz.Base.Bytes.{Bytes, codes}
use lighttpd_fuzz.Base.Text.{
  Text, get, put, elem, strip, left_strip, is_ascii_space, decimal, starts_with, lower, dash,
  is_space, from_digits, is_digit,
}
use lighttpd_fuzz.Base.Text.Int.{int, int_digits}
use lighttpd_fuzz.Backend.Modes.{
  Url, select_mode, uri_mode, query_mode, path_mode, after_last, right_strip, canonical_mode,
  known_or_normal, mode_value, get_default,
}
use lighttpd_fuzz.Backend.Plan.{Response, normal_response, response_plan, mode_plan, max_headers}
use lighttpd_fuzz.Backend.Socket.{Arrival, push, Connection}
use lighttpd_fuzz.Backend.Socket.Stream.{Leaves, stream}
use lighttpd_fuzz.Backend.Scgi.{handle_scgi}
use lighttpd_fuzz.Backend.Scgi.HeadersRoundTrip.{scgi_bytes}
use lighttpd_fuzz.Backend.Scgi.Answers.{netstring, handle_scgi-answers}
use lighttpd_fuzz.Backend.Http.{int_or_zero, handle_http}
use lighttpd_fuzz.Backend.Http.Request.{IsRequest, head_bytes, join_crlf, request_line, put_fields}
use lighttpd_fuzz.Backend.Http.Answers.{handle_http-answers}
use lighttpd_fuzz.Backend.FastCgi.RoundTrip.{put_all}
use lighttpd_fuzz.Backend.FastCgi.Requests.{http_headers}

-- A parser that finds a path without a query in every URI.
abbrev plain_path : Text → Option Url
plain_path uri = some (record { path = uri; query = λ key. [] })

abbrev scgi_headers : List (Text × Bytes)
scgi_headers =
    (codes "CONTENT_LENGTH", codes "2") ∷ (codes "REQUEST_URI", codes "/scgi/normal") ∷ []

abbrev scgi_plan : Response
scgi_plan = record {
  content = normal_response false;
  short_writes = false;
  close_early = false;
  upgrade = false;
}

-- The bytes of the request behind the first one, and the beginning of what follows it.
abbrev scgi_tail : Bytes
scgi_tail =
    codes "2:CONTENT_LENGTH"
    ++ 0
      ∷ (codes "2" ++ 0 ∷ (codes "REQUEST_URI" ++ 0 ∷ (codes "/scgi/normal" ++ 0 ∷ codes ",hiGET")))

abbrev scgi_connection : Connection
scgi_connection = record {
  incoming = push (codes "4") (push scgi_tail []);
  accepts = 1 ∷ [];
  sent = [];
}

scgi_streams :
    stream scgi_connection.incoming
    ≡ netstring (scgi_bytes scgi_headers) ++ (codes "hi" ++ codes "GET")
unfolding netstring scgi_bytes decimal
scgi_streams = refl

scgi_size :
    int (get_default (get (codes "CONTENT_LENGTH") (put_all scgi_headers [])) (codes "0"))
    ≡ some (false, 2)
unfolding int int_digits strip left_strip is_ascii_space get put from_digits is_digit put_all
scgi_size = refl

scgi_is_planned :
    response_plan
      (select_mode plain_path
        (get_default (get (codes "REQUEST_URI") (put_all scgi_headers [])) (codes "/"))
        (http_headers (put_all scgi_headers []) []))
      false
      (codes "hi")
    ≡ ok scgi_plan
unfolding response_plan mode_plan select_mode uri_mode query_mode path_mode after_last right_strip
    canonical_mode known_or_normal mode_value strip is_space left_strip lower dash elem get put
    put_all http_headers starts_with
scgi_is_planned = refl

scgi_block_size :
    (1 ≤ length (scgi_bytes scgi_headers)) × (length (scgi_bytes scgi_headers) ≤ max_headers)
unfolding scgi_bytes
scgi_block_size = (omega arith, omega arith)

handle_scgi-answers_example :
    (rest : List Arrival) × (accepts : List ℕ) × (handle_scgi plain_path 4 scgi_connection ≡ (
      ok true,
      record scgi_connection { incoming = rest; accepts = accepts; sent = normal_response false },
    ))
    × Leaves scgi_connection.incoming rest (codes "GET")
handle_scgi-answers_example =
    handle_scgi-answers plain_path 4 scgi_headers (codes "hi") (codes "GET") scgi_plan
      scgi_connection (ground arith) scgi_block_size.0 scgi_block_size.1 scgi_size (omega arith)
      scgi_is_planned (omega arith, tt) scgi_streams

-- A request for the mode "normal" with a header, and the first bytes of its body.
abbrev http_fields : List (Text × Bytes)
http_fields = (codes "Host", codes " a") ∷ (codes "Content-Length", codes " 2") ∷ []

abbrev http_connection : Connection
http_connection = record {
  incoming =
      push (codes "GET /normal HTTP/1.1\r\nHost: a\r\nContent-Len")
        (push (codes "gth: 2\r\n\r\nh") (push (codes "i") []));
  accepts = 1 ∷ [];
  sent = [];
}

abbrev http_response : Response
http_response = record {
  content = normal_response true;
  short_writes = false;
  close_early = false;
  upgrade = false;
}

http-IsRequest : IsRequest (codes "GET") (codes "/normal") (codes "HTTP/1.1")
unfolding starts_with
http-IsRequest = record {
  some_method = omega arith;
  some_uri = omega arith;
  method_line = ground arith;
  uri_line = ground arith;
  version_line = ground arith;
  method_word = ground arith;
  uri_word = ground arith;
  known_version = refl;
}

http_streams :
    stream http_connection.incoming
    ≡ head_bytes (codes "GET") (codes "/normal") (codes "HTTP/1.1") http_fields ++ codes "hi"
unfolding head_bytes join_crlf request_line
http_streams = refl

http_fits :
    length (head_bytes (codes "GET") (codes "/normal") (codes "HTTP/1.1") http_fields)
    ≤ max_headers + 1
unfolding head_bytes join_crlf request_line
http_fits = omega arith

http_size :
    int_or_zero
      (int (get_default (get (codes "content-length") (put_fields http_fields [])) (codes "0")))
    ≡ (false, 2)
unfolding put_fields int int_digits strip left_strip is_ascii_space is_space lower get put
    from_digits is_digit
http_size = refl

http_is_planned :
    response_plan (select_mode plain_path (codes "/normal") (put_fields http_fields [])) true []
    ≡ ok http_response
unfolding put_fields response_plan mode_plan select_mode uri_mode query_mode path_mode after_last
    right_strip canonical_mode known_or_normal mode_value strip is_space is_ascii_space left_strip
    lower dash elem get put
http_is_planned = refl

handle_http-answers_example :
    (rest : List Arrival) × (accepts : List ℕ) × (handle_http plain_path 4 http_connection ≡ (
      ok false,
      record http_connection { incoming = rest; accepts = accepts; sent = normal_response true },
    ))
handle_http-answers_example =
    handle_http-answers plain_path 4 (codes "GET") (codes "/normal") (codes "HTTP/1.1") http_fields
      (codes "hi") http_response http_connection http-IsRequest (ground arith) http_fits http_size
      (omega arith) http_is_planned (omega arith, tt) http_streams

-- A request of FastCGI in two pieces, and the beginning of what follows it.
abbrev fcgi_fields : List (Text × Bytes)
fcgi_fields = (codes "REQUEST_URI", codes "/fcgi/normal") ∷ []

abbrev fcgi_block : Bytes
fcgi_block = 11 ∷ 12 ∷ codes "REQUEST_URI/fcgi/normal"

abbrev fcgi_tail : Bytes
fcgi_tail =
    (0 ∷ 0 ∷ 0 ∷ 0 ∷ 0 ∷ 1 ∷ 4 ∷ 0 ∷ 1 ∷ 0 ∷ 25 ∷ 0 ∷ 0 ∷ [])
    ++ (fcgi_block
        ++ ((1 ∷ 4 ∷ 0 ∷ 1 ∷ 0 ∷ 0 ∷ 0 ∷ 0 ∷ 1 ∷ 5 ∷ 0 ∷ 1 ∷ 0 ∷ 2 ∷ 0 ∷ 0 ∷ [])
            ++ (codes "hi" ++ ((1 ∷ 5 ∷ 0 ∷ 1 ∷ 0 ∷ 0 ∷ 0 ∷ 0 ∷ []) ++ codes "x"))))

abbrev fcgi_connection : Connection
fcgi_connection = record {
  incoming = push (1 ∷ 1 ∷ 0 ∷ 1 ∷ 0 ∷ 8 ∷ 0 ∷ 0 ∷ 0 ∷ 1 ∷ 0 ∷ []) (push fcgi_tail []);
  accepts = 1 ∷ [];
  sent = [];
}
