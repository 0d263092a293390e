-- ===== src/Tests/Backend.antt =====
-- The theorems on the backend applied to concrete requests, connections and records.
use lighttpd_fuzz.Base.{
  ℕ, List, [], ◌∷◌, ◌++◌, ◌≡◌, ◌≢◌, refl, ap, ◌↔◌, Bool, true, false, ◌≤◌, ◌<◌, length, replicate,
  Option, none, some, Result, ok, err, is_ok, eof_error, diverged, value_error, zero, suc, arith,
}
use lighttpd_fuzz.Base.Bytes.{byte_string, Bytes, codes}
use lighttpd_fuzz.Base.Text.{strip, is_space, left_strip, lower, dash, elem, Text, get, put}
use lighttpd_fuzz.Backend.Modes.{Url, select_mode}
use lighttpd_fuzz.Backend.Modes.Selected.{IsMode, select_mode-IsMode}
use lighttpd_fuzz.Backend.Modes.Paths.{select_mode-of_path}
use lighttpd_fuzz.Backend.Plan.{response_plan}
use lighttpd_fuzz.Backend.Plan.Total.{response_plan-returns}
use lighttpd_fuzz.Backend.Socket.{Arrival, chunk, Connection, recv_exact, send_response}
use lighttpd_fuzz.Backend.Socket.Stream.{Leaves, recv_exact-stream}
use lighttpd_fuzz.Backend.Socket.Short.{recv_exact-short}
use lighttpd_fuzz.Backend.Socket.Sent.{send_response-sends}
use lighttpd_fuzz.Backend.FastCgi.Params.{fcgi_params, fcgi_record}
use lighttpd_fuzz.Backend.FastCgi.RoundTrip.{encode_params, put_all, fcgi_params-encode_params}
use lighttpd_fuzz.Backend.FastCgi.Requests.{
  Request, Requests, find_request, pop_request, set_request, new_request,
}
use lighttpd_fuzz.Backend.FastCgi.Change.{AreBounded}
use lighttpd_fuzz.Backend.FastCgi.Bounds.{handle_record-AreBounded}
use lighttpd_fuzz.Backend.FastCgi.Isolation.{handle_record-find_other}
use lighttpd_fuzz.Backend.FastCgi.Handler.{Record, recv_record, handle_record}
use lighttpd_fuzz.Backend.FastCgi.Handler.{handle_fastcgi}
use lighttpd_fuzz.Backend.Scgi.Headers.{parse_scgi_headers}
use lighttpd_fuzz.Backend.Scgi.HeadersRoundTrip.{scgi_bytes, parse_scgi_headers-scgi_bytes}
use lighttpd_fuzz.Backend.FastCgi.Upgrade.{fcgi_respond-long_body}
use lighttpd_fuzz.Backend.FastCgi.Handler.{fcgi_respond}
use lighttpd_fuzz.Backend.FastCgi.Records.{recv_record-fcgi_record}

-- A parser that finds a path without a query in every URI.
abbrev only_path : Text → Option Url
only_path uri = some (record { path = uri; query = λ key. [] })

select_mode-IsMode_example : IsMode (select_mode only_path (codes "/a/unknown") [])
select_mode-IsMode_example = select_mode-IsMode only_path (codes "/a/unknown") []

select_mode-of_path_example :
    select_mode only_path (codes "/__backend__/upgrade//") [] ≡ codes "upgrade"
unfolding lighttpd_fuzz.Base.Text.elem get
select_mode-of_path_example =
    select_mode-of_path only_path (codes "/__backend__/upgrade//") []
      (record { path = codes "/__backend__/upgrade//"; query = λ key. [] }) (codes "/__backend__")
      (codes "upgrade") 2 refl refl refl refl refl refl

response_plan-returns_example : is_ok (response_plan (codes "nothing") true (1 ∷ [])) ≡ true
response_plan-returns_example = response_plan-returns true (1 ∷ []) (codes "nothing")

-- Three bytes in two pieces.
abbrev pieces : Connection
pieces = record { incoming = chunk 7 [] ∷ chunk 8 (9 ∷ []) ∷ []; accepts = 1 ∷ 2 ∷ []; sent = [] }

recv_exact-stream_example :
    (rest : List Arrival) × (recv_exact 2 pieces
      ≡ (ok (7 ∷ 8 ∷ []), record pieces { incoming = rest }))
    × Leaves pieces.incoming rest (9 ∷ [])
recv_exact-stream_example = recv_exact-stream (7 ∷ 8 ∷ []) (9 ∷ []) pieces refl

recv_exact-short_example :
    (rest : List Arrival) × (recv_exact 4 pieces
      ≡ (err eof_error, record pieces { incoming = rest }))
recv_exact-short_example = recv_exact-short 4 pieces (omega arith)

send_response-sends_example :
    (rest : List ℕ) × (send_response (1 ∷ 2 ∷ 3 ∷ 4 ∷ []) true pieces
      ≡ (ok tt, record pieces { accepts = rest; sent = 1 ∷ 2 ∷ 3 ∷ 4 ∷ [] }))
send_response-sends_example =
    send_response-sends (1 ∷ 2 ∷ 3 ∷ 4 ∷ []) true pieces (omega arith, (omega arith, tt))

abbrev one_param : List (Text × Bytes)
one_param = (codes "REQUEST_URI", codes "/upgrade") ∷ []

fcgi_params-encode_params_example :
    (content : Bytes) × (encode_params one_param ≡ ok content)
    × (fcgi_params content ≡ ok (put_all one_param []))
fcgi_params-encode_params_example =
    fcgi_params-encode_params one_param ((omega arith, omega arith), tt)

-- A stdin record of one byte, and one byte more, in two pieces.
abbrev stdin_pieces : Connection
stdin_pieces = record {
  incoming = chunk 1 (5 ∷ 0 ∷ []) ∷ chunk 1 (0 ∷ 1 ∷ 0 ∷ 0 ∷ 7 ∷ 6 ∷ []) ∷ [];
  accepts = [];
  sent = [];
}

abbrev stdin_of_one : Record
stdin_of_one = record { record_type = 5; request_id = 1; content = 7 ∷ [] }

recv_record-fcgi_record_example :
    (rest : List Arrival) × (recv_record stdin_pieces
      ≡ (ok stdin_of_one, record stdin_pieces { incoming = rest }))
    × Leaves stdin_pieces.incoming rest (6 ∷ [])
unfolding fcgi_record lighttpd_fuzz.Base.Bytes.byte_string
recv_record-fcgi_record_example =
    recv_record-fcgi_record 5 1 (7 ∷ []) (1 ∷ 5 ∷ 0 ∷ 1 ∷ 0 ∷ 1 ∷ 0 ∷ 0 ∷ 7 ∷ []) (6 ∷ [])
      stdin_pieces refl (omega arith) refl

-- Two requests that have begun.
abbrev begun : Requests
begun = (1, new_request []) ∷ (2, new_request []) ∷ []

abbrev after_stdin : Requests
after_stdin = (1, record (new_request []) { received = 7 ∷ [] }) ∷ (2, new_request []) ∷ []

handle_record-AreBounded_example : AreBounded 4 after_stdin
unfolding handle_record set_request new_request lighttpd_fuzz.Backend.FastCgi.Handler.request_record
    lighttpd_fuzz.Backend.FastCgi.Handler.stdin_record
    lighttpd_fuzz.Backend.FastCgi.Requests.body_record
handle_record-AreBounded_example =
    handle_record-AreBounded only_path 4 stdin_of_one begun stdin_pieces false after_stdin
      stdin_pieces refl
      (
        record { params_fit = omega arith; body_fits = omega arith },
        (record { params_fit = omega arith; body_fits = omega arith }, tt),
      )

handle_record-find_other_example : find_request 2 after_stdin ≡ find_request 2 begun
unfolding handle_record set_request new_request lighttpd_fuzz.Backend.FastCgi.Handler.request_record
    lighttpd_fuzz.Backend.FastCgi.Handler.stdin_record
    lighttpd_fuzz.Backend.FastCgi.Requests.body_record
handle_record-find_other_example =
    handle_record-find_other only_path 4 stdin_of_one begun stdin_pieces false after_stdin
      stdin_pieces 2 refl (ground arith)

length-replicate : (n : ℕ) (b : ℕ) → length (replicate n b) ≡ n
length-replicate zero b = refl
length-replicate (suc n) b = ap suc (length-replicate n b)

-- A body of 65536 bytes.
abbrev long_received : Bytes
long_received = replicate 65536 0

fcgi_respond-long_body_example :
    fcgi_respond 1 (codes "upgrade") long_received true pieces
    ≡ (err (value_error "FastCGI record too large"), pieces)
fcgi_respond-long_body_example =
    fcgi_respond-long_body 1 long_received true pieces (omega (arith, length-replicate 65536 0))

-- The second header writes the first one again, and its value is empty.
abbrev two_headers : List (Text × Bytes)
two_headers = (codes "A", codes "b") ∷ (codes "A", []) ∷ []

parse_scgi_headers-scgi_bytes_example :
    parse_scgi_headers (scgi_bytes two_headers) ≡ ok (put_all two_headers [])
parse_scgi_headers-scgi_bytes_example =
    parse_scgi_headers-scgi_bytes two_headers
      (((ground arith, tt), (ground arith, tt)), (((ground arith, tt), tt), tt))
