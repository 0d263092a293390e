-- ===== src/Backend/Scgi.antt =====
-- `handle_scgi` of backend-responder.py.
pub mod Headers
pub mod HeadersRoundTrip
pub mod Answers
use lighttpd_fuzz.Base.{
  is_empty, ℕ, zero, suc, List, [], ◌∷◌, ◌++◌, Bool, true, false, not, ◌&&◌, ◌||◌, ltb, ◌==◌,
  if◌then◌else◌, Option, none, some, Result, ok, err, value_error, raise_if,
}
use lighttpd_fuzz.Base.Bytes.{Bytes, codes, bytes_eq}
use lighttpd_fuzz.Base.Text.{Text, get, is_digit, from_digits}
use lighttpd_fuzz.Base.Text.Int.{Signed, int}
use lighttpd_fuzz.Backend.Body.{bad_length}
use lighttpd_fuzz.Backend.Modes.{Url, select_mode, get_default}
use lighttpd_fuzz.Backend.Plan.{Response, response_plan, max_headers}
use lighttpd_fuzz.Backend.Socket.{Conn, recv_exact, send_response, lift, pure, raise, ◌>>=◌, ◌>>◌}
use lighttpd_fuzz.Backend.FastCgi.Requests.{http_headers}
use lighttpd_fuzz.Backend.FastCgi.Handler.{recv_some}
use lighttpd_fuzz.Backend.Scgi.Headers.{parse_scgi_headers}

-- `char.isdigit()`
abbrev pub all_digits : Bytes → Bool
all_digits [] = false
all_digits (c ∷ []) = is_digit c
all_digits (c ∷ d ∷ cs) = is_digit c && all_digits (d ∷ cs)

-- The `while` loop, of which `rounds` are left, and its `else`.
unfoldable pub read_digits : ℕ → Bytes → Conn Bytes
read_digits zero digits = raise (value_error "SCGI length is too long")
read_digits (suc rounds) digits = do
  char ← recv_exact 1
  (if bytes_eq char (b':' ∷ [])
      then pure digits
      else if not (all_digits char)
      then raise (value_error "invalid SCGI netstring")
      else read_digits rounds (digits ++ char))

abbrev pub int_or_err : Option Signed → Result Signed
int_or_err none = err (value_error "invalid SCGI content length")
int_or_err (some n) = ok n

unfoldable pub recv_scgi_headers : Conn (List (Text × Bytes))
recv_scgi_headers = do
  digits ← read_digits 10 []
  lift (raise_if (is_empty digits) (value_error "missing SCGI length"))
  let header_length = from_digits 0 digits
  lift (
      raise_if (header_length == 0 || ltb max_headers header_length)
        (value_error "invalid SCGI header length"))
  block ← recv_exact header_length
  headers ← lift (parse_scgi_headers block)
  comma ← recv_exact 1
  lift (
      raise_if (not (bytes_eq comma (b',' ∷ []))) (value_error "invalid SCGI netstring terminator"))
  pure headers

module _ (parse : Text → Option Url) (max_request : ℕ) where
  -- What is sent for a request with these headers and this body.
  unfoldable pub scgi_respond : List (Text × Bytes) → Bytes → Conn Bool
  scgi_respond headers received = do
    let mode =
        select_mode parse (get_default (get (codes "REQUEST_URI") headers) (codes "/"))
          (http_headers headers [])
    response ← lift (response_plan mode false received)
    send_response response.content response.short_writes
    pure true

  unfoldable pub handle_scgi : Conn Bool
  handle_scgi = do
    headers ← recv_scgi_headers
    size ← lift (int_or_err (int (get_default (get (codes "CONTENT_LENGTH") headers) (codes "0"))))
    lift (raise_if (bad_length max_request size) (value_error "invalid SCGI content length"))
    received ← recv_some size.1
    scgi_respond headers received
