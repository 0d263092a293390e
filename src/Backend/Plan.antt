-- ===== src/Backend/Plan.antt =====
-- `_headers` and `response_plan` of backend-responder.py.
pub mod Total
use lighttpd_fuzz.Base.{
  ℕ, List, [], ◌∷◌, ◌++◌, Bool, true, false, ◌||◌, take, length, concat, map, if◌then◌else◌, Result,
  ok, err, assertion_error,
}
use lighttpd_fuzz.Base.Bytes.{Bytes, codes, bytes_eq}
use lighttpd_fuzz.Base.Text.{Text, decimal, elem}
use lighttpd_fuzz.Backend.Modes.{canonical_mode, mode_path_prefix}

abbrev pub max_headers : ℕ
max_headers = 65536

abbrev pub max_request : ℕ
max_request = 1048576

-- The bytes to send, and how: in short pieces, with an early close, as a tunnel afterwards.
pub record Response : Type 0 where
  pub content : Bytes
  pub short_writes : Bool
  pub close_early : Bool
  pub upgrade : Bool

field_line : Text × Text → Text
field_line (key, value) = key ++ (codes ": " ++ (value ++ codes "\r\n"))

unfoldable pub headers_block : Text → List (Text × Text) → Bool → Bytes
unfolding field_line
headers_block status fields http =
    (if http then codes "HTTP/1.1 " else codes "Status: ")
    ++ (status ++ (codes "\r\n" ++ (concat (map field_line fields) ++ codes "\r\n")))

-- `b"HTTP/1.1 200 OK\r\n" if http else b"Status: 200 OK\r\n"`
unfoldable pub first_line : Bool → Bytes
first_line http = if http then codes "HTTP/1.1 200 OK\r\n" else codes "Status: 200 OK\r\n"

abbrev pub body : Bytes
body = codes "backend-ok\n"

unfoldable pub normal_response : Bool → Bytes
unfolding headers_block decimal
normal_response http =
    headers_block (codes "200 OK")
      ((codes "Content-Type", codes "text/plain")
        ∷ (codes "Content-Length", decimal (length body))
        ∷ (codes "Connection", codes "close")
        ∷ [])
      http
    ++ body

unfoldable pub interim_response : Text → Bool → Bytes
unfolding normal_response
interim_response mode http =
    let continue =
      if elem mode (codes "100" ∷ codes "interim" ∷ [])
      then headers_block (codes "100 Continue") [] http
      else [] in
    let hints =
      if elem mode (codes "103" ∷ codes "interim" ∷ [])
      then headers_block (codes "103 Early Hints")
          ((codes "Link", codes "</early.css>; rel=preload") ∷ []) http
      else [] in
    continue ++ (hints ++ normal_response http)

-- `data, False, False, False` and `data, False, True, False`.
abbrev plain : Bytes → Response
plain content = record {
  content = content;
  short_writes = false;
  close_early = false;
  upgrade = false;
}

abbrev early : Bytes → Response
early content = record (plain content) { close_early = true }

-- The headers of the two responses with chunks that are wrong.
unfoldable pub chunked_headers : Bool → Bytes
chunked_headers http =
    headers_block (codes "200 OK")
      ((codes "Transfer-Encoding", codes "chunked") ∷ (codes "Connection", codes "close") ∷ []) http

-- The ladder of `response_plan`, for a mode that is canonical.
unfoldable pub mode_plan : Text → Bool → Bytes → Result Response
unfolding interim_response first_line
mode_plan mode http echo =
    if bytes_eq mode (codes "normal")
    then ok (plain (normal_response http))
    else if bytes_eq mode (codes "partial")
    then ok (record (plain (normal_response http)) { short_writes = true })
    else if bytes_eq mode (codes "chunked-trailers")
    then ok (
        plain (
          headers_block (codes "200 OK")
            ((codes "Content-Type", codes "text/plain")
              ∷ (codes "Transfer-Encoding", codes "chunked")
              ∷ (codes "Trailer", codes "X-Backend-Trailer")
              ∷ (codes "Connection", codes "close")
              ∷ [])
            http
          ++ codes "4\r\npart\r\n3\r\nial\r\n0\r\nX-Backend-Trailer: done\r\n\r\n"))
    else if elem mode (codes "100" ∷ codes "103" ∷ codes "interim" ∷ [])
    then ok (plain (interim_response mode http))
    else if bytes_eq mode (codes "early-close")
    then ok (
        early (
          headers_block (codes "200 OK")
            ((codes "Content-Type", codes "text/plain")
              ∷ (codes "Content-Length", codes "64")
              ∷ (codes "Connection", codes "close")
              ∷ [])
            http
          ++ codes "short\n"))
    else if bytes_eq mode (codes "malformed-headers")
    then ok
        (plain (first_line http ++ codes "Header Without Colon\r\nContent-Length: 3\r\n\r\nbad"))
    else if bytes_eq mode (codes "truncated-headers")
    then ok (early (first_line http ++ codes "Content-Length: 3\r\nX-Truncated:"))
    else if bytes_eq mode (codes "malformed-chunk")
    then ok (plain (chunked_headers http ++ codes "Z\r\nbad\r\n0\r\n\r\n"))
    else if bytes_eq mode (codes "truncated-chunk")
    then ok (early (chunked_headers http ++ codes "5\r\nxy"))
    else if bytes_eq mode (codes "redirect-cookie")
    then ok (
        plain (
          headers_block (codes "302 Found")
            ((codes "Location", mode_path_prefix ++ codes "normal")
              ∷ (codes "Set-Cookie", codes "fixture=1; Path=/; Domain=backend.invalid")
              ∷ (codes "Content-Length", codes "0")
              ∷ (codes "Connection", codes "close")
              ∷ [])
            http))
    else if bytes_eq mode (codes "upgrade")
    then ok
        (record (plain (
          headers_block (codes "101 Switching Protocols")
            ((codes "Connection", codes "Upgrade") ∷ (codes "Upgrade", codes "backend-echo") ∷ [])
            http
          ++ take max_request echo)) { upgrade = true })
    else err assertion_error

unfoldable pub response_plan : Text → Bool → Bytes → Result Response
unfolding mode_plan
response_plan mode http echo = mode_plan (canonical_mode mode) http echo
