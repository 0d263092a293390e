-- ===== src/Backend/Http.antt =====
-- `_recv_headers`, `_parse_http_headers` and `handle_http` of backend-responder.py.
pub mod Ends
pub mod Split
pub mod Headers
pub mod Request
pub mod Answers
use lighttpd_fuzz.Base.{
  ℕ, zero, suc, ◌+◌, ◌-◌, List, [], ◌∷◌, ◌++◌, Bool, true, false, not, ◌&&◌, ◌||◌, ltb, leb, ◌==◌,
  min, is_empty, if◌then◌else◌, length, take, drop, map, Option, none, some, Result, ok, err, Error,
  timeout_error, value_error, diverged, raise_if,
}
use lighttpd_fuzz.Base.Bytes.{Bytes, codes, bytes_eq}
use lighttpd_fuzz.Base.Text.{Text, get, put, lower, strip, is_space, is_ascii_space, starts_with}
use lighttpd_fuzz.Base.Text.Int.{Signed, int}
use lighttpd_fuzz.Backend.Body.{bad_length}
use lighttpd_fuzz.Backend.Modes.{Url, select_mode, get_default}
use lighttpd_fuzz.Backend.Plan.{Response, response_plan, max_headers}
use lighttpd_fuzz.Backend.Socket.{
  Connection, Conn, recv, recv_exact, block_or_eof, send_response, lift, pure, raise, ◌>>=◌, ◌>>◌,
}

-- What stands before a separator and what stands behind it, if it is found; over what was passed so far.
unfoldable pub split_at : Bytes → Bytes → Bytes → Option (Bytes × Bytes)
split_at separator front [] = none
split_at separator front (b ∷ bs) =
    let later = split_at separator (front ++ b ∷ []) bs in
    if starts_with (b ∷ bs) separator then some (front, drop (length separator) (b ∷ bs)) else later

abbrev pub end_of_headers : Bytes
end_of_headers = codes "\r\n\r\n"

-- `_recv_headers`, over what `data` holds so far. Each round but the last brings a byte at least, so
-- `_MAX_HEADERS + 1` rounds are enough.
unfoldable pub recv_headers_loop : ℕ → Bytes → Conn (Bytes × Bytes)
recv_headers_loop zero content =
    if leb (length content) max_headers
    then raise diverged
    else raise (value_error "headers too large")
recv_headers_loop (suc fuel) content =
    if ltb max_headers (length content) then raise (value_error "headers too large") else (do
      block ← recv (min 4096 (max_headers + 1 - length content))
      block_or_eof block
      elim (split_at end_of_headers [] (content ++ block)) [
        | some (head, extra) ↦ pure (head ++ end_of_headers, extra)
        | none ↦ recv_headers_loop fuel (content ++ block)
      ])

unfoldable pub recv_headers : Conn (Bytes × Bytes)
recv_headers = recv_headers_loop (max_headers + 1) []

-- `value.split(separator)`, over what the piece holds so far and how much of a separator is still to pass.
unfoldable pub split_pieces : Bytes → ℕ → Bytes → Bytes → List Bytes
split_pieces separator skip piece [] = piece ∷ []
split_pieces separator (suc skip) piece (b ∷ bs) = split_pieces separator skip piece bs
split_pieces separator zero piece (b ∷ bs) =
    let ended = piece ∷ split_pieces separator (length separator - 1) [] bs in
    let longer = split_pieces separator zero (piece ++ b ∷ []) bs in
    if starts_with (b ∷ bs) separator then ended else longer

-- `lines[0].split(b" ", 2)`, if it gives three parts.
unfoldable pub request_parts : Bytes → Option (Bytes × (Bytes × Bytes))
request_parts line = elim (split_at (b' ' ∷ []) [] line) [
  | none ↦ none
  | some (method, rest) ↦ elim (split_at (b' ' ∷ []) [] rest) [
    | none ↦ none
    | some (uri, version) ↦ some (method, (uri, version))
  ]
]

-- The URI of a request line that is complete.
abbrev pub valid_uri : Option (Bytes × (Bytes × Bytes)) → Result Bytes
valid_uri none = err (value_error "invalid request line")
valid_uri (some (method, (uri, version))) =
    if is_empty method || (is_empty uri || not (starts_with version (codes "HTTP/")))
    then err (value_error "invalid request line")
    else ok uri

-- A line without a colon is passed over.
abbrev pub put_header : Option (Bytes × Bytes) → List (Text × Bytes) → List (Text × Bytes)
put_header none headers = headers
put_header (some (key, value)) headers =
    put (map lower (strip is_space key)) (strip is_ascii_space value) headers

unfoldable pub parse_lines : List Bytes → List (Text × Bytes) → List (Text × Bytes)
parse_lines [] headers = headers
parse_lines (line ∷ lines) headers =
    parse_lines lines (put_header (split_at (b':' ∷ []) [] line) headers)

abbrev pub with_headers : List Bytes → Result Bytes → Result (Bytes × List (Text × Bytes))
with_headers lines (ok uri) = ok (uri, parse_lines lines [])
with_headers lines (err e) = err e

abbrev pub parse_request : List Bytes → Result (Bytes × List (Text × Bytes))
parse_request [] = err (value_error "invalid request line")
parse_request (line ∷ lines) = with_headers lines (valid_uri (request_parts line))

unfoldable pub parse_http_headers : Bytes → Result (Bytes × List (Text × Bytes))
parse_http_headers content =
    parse_request (split_pieces (codes "\r\n") 0 [] (take (length content - 4) content))

-- The length of the body; what is no number is 0.
abbrev pub int_or_zero : Option Signed → Signed
int_or_zero none = (false, 0)
int_or_zero (some n) = n

-- The `while remaining > 0` loop of the tunnel; a round takes a byte at least.
unfoldable pub echo_loop : ℕ → ℕ → Conn (Unit {0})
echo_loop fuel zero = pure tt
echo_loop zero (suc remaining) = raise diverged
echo_loop (suc fuel) (suc remaining) = do
  block ← recv (min 4096 (suc remaining))
  if is_empty block
      then pure tt
      else (do send_response block false; echo_loop fuel (suc remaining - length block))

-- `except socket.timeout: pass`
abbrev pub timeout_is_end : Result (Unit {0}) → Result (Unit {0})
timeout_is_end (err timeout_error) = ok tt
timeout_is_end r = r

-- The tunnel; its own timeout is left out, a pause is one that is longer.
unfoldable pub echo : ℕ → Conn (Unit {0})
echo remaining c = let (r, c') = echo_loop remaining remaining c in (timeout_is_end r, c')

module _ (parse : Text → Option Url) (max_request : ℕ) where
  -- The rest of a body of which `extra` holds the beginning.
  unfoldable pub recv_body : Bytes → ℕ → Conn Bytes
  recv_body extra size = do
    let body = take size extra
    (if ltb (length body) size
        then (do rest ← recv_exact (size - length body); pure (body ++ rest))
        else pure body)

  unfoldable pub http_respond : Bytes → List (Text × Bytes) → Bytes → Conn Bool
  http_respond uri headers tunnel = do
    response ← lift (response_plan (select_mode parse uri headers) true tunnel)
    send_response response.content response.short_writes
    if response.upgrade then echo (max_request - length tunnel) else pure tt
    pure (response.close_early || response.upgrade)

  unfoldable pub handle_http : Conn Bool
  handle_http = do
    (head, extra) ← recv_headers
    (uri, headers) ← lift (parse_http_headers head)
    let size = int_or_zero (int (get_default (get (codes "content-length") headers) (codes "0")))
    lift (raise_if (bad_length max_request size) (value_error "invalid content length"))
    received ← recv_body extra size.1
    http_respond uri headers (drop size.1 extra)
