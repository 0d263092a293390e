-- ===== src/Backend/Scgi/Answers.antt =====
-- A request that is written as SCGI wants it.
use lighttpd_fuzz.Base.{
  ℕ, zero, suc, ◌≤◌, ◌<◌, List, [], ◌∷◌, ◌++◌, ◌≡◌, refl, ap, ◌∙◌, append_assoc, append-nil, true,
  false, ltb, ◌==◌, is_empty, length, All, Option, some, ok, arith,
}
use lighttpd_fuzz.Base.Bytes.{Bytes, codes}
use lighttpd_fuzz.Base.Text.{Text, get, is_digit, decimal}
use lighttpd_fuzz.Base.Text.Decimal.{
  from_digits-decimal, decimal-digits, length-decimal, decimal_nonempty,
}
use lighttpd_fuzz.Base.Text.Int.{int}
use lighttpd_fuzz.Backend.Body.{bad_length}
use lighttpd_fuzz.Backend.Modes.{Url, select_mode, get_default}
use lighttpd_fuzz.Backend.Plan.{Response, response_plan, max_headers}
use lighttpd_fuzz.Backend.Socket.{Connection, Arrival}
use lighttpd_fuzz.Backend.Socket.Stream.{stream, Leaves, recv_exact-stream}
use lighttpd_fuzz.Backend.Socket.Sent.{send_response-sends}
use lighttpd_fuzz.Backend.FastCgi.Requests.{http_headers}
use lighttpd_fuzz.Backend.FastCgi.RoundTrip.{put_all}
use lighttpd_fuzz.Backend.FastCgi.Records.{recv_some-stream}
use lighttpd_fuzz.Backend.Scgi.Headers.{parse_scgi_headers}
use lighttpd_fuzz.Backend.Scgi.HeadersRoundTrip.{scgi_bytes, IsField, parse_scgi_headers-scgi_bytes}
use lighttpd_fuzz.Backend.Scgi.{read_digits, recv_scgi_headers, scgi_respond, handle_scgi}

read_digits-stream :
    (rounds : ℕ) (acc digits later : Bytes) (c : Connection)
    → All (λ d. is_digit d ≡ true) digits
    → length digits < rounds
    → stream c.incoming ≡ digits ++ b':' ∷ later
    → (rest : List Arrival) × (read_digits rounds acc c
        ≡ (ok (acc ++ digits), record c { incoming = rest }))
      × Leaves c.incoming rest later
unfolding read_digits
read_digits-stream zero acc digits later c h n e = absurd (omega arith)
read_digits-stream (suc rounds) acc [] later c h n e =
    let (rest, run, leaves) = recv_exact-stream (b':' ∷ []) later c e in
    (rest, rw (run, append-nil) refl, leaves)
read_digits-stream (suc rounds) acc (d ∷ ds) later c (h, hs) n e =
    let (rest₁, run₁, leaves₁) = recv_exact-stream (d ∷ []) (ds ++ b':' ∷ later) c e in
    let (rest₂, run₂, leaves₂) =
      read_digits-stream rounds (acc ++ d ∷ []) ds later (record c { incoming = rest₁ }) hs
        (omega arith) leaves₁.streams in
    let other : (d == b':') ≡ false = (unfold is_digit in ground arith) in
    (
      rest₂,
      rw (run₁, other, h)
          (run₂ ∙ ap (λ t. (ok t, record c { incoming = rest₂ })) (append_assoc acc (d ∷ []) ds)),
      record { streams = leaves₂.streams; ends = leaves₂.ends ∙ leaves₁.ends },
    )

-- The netstring of a block of headers.
unfoldable pub netstring : Bytes → Bytes
netstring block = decimal (length block) ++ b':' ∷ (block ++ b',' ∷ [])

recv_scgi_headers-stream :
    (block later : Bytes) (headers : List (Text × Bytes)) (c : Connection)
    → parse_scgi_headers block ≡ ok headers
    → 1 ≤ length block
    → length block ≤ max_headers
    → stream c.incoming ≡ netstring block ++ later
    → (rest : List Arrival) × (recv_scgi_headers c ≡ (ok headers, record c { incoming = rest }))
      × Leaves c.incoming rest later
unfolding recv_scgi_headers netstring
recv_scgi_headers-stream block later headers c parsed some_bytes fits e =
    let n : ℕ = length block in
    let digits : Bytes = decimal n in
    let s : stream c.incoming ≡ digits ++ b':' ∷ (block ++ b',' ∷ later) =
      e
      ∙ append_assoc digits (b':' ∷ (block ++ b',' ∷ [])) later
      ∙ ap (λ t. digits ++ b':' ∷ t) (append_assoc block (b',' ∷ []) later) in
    let (r₁, run₁, l₁) =
      read_digits-stream 10 [] digits (block ++ b',' ∷ later) c (decimal-digits n)
        (let few : length digits ≤ 5 = length-decimal n 4 (omega arith) in omega arith) s in
    let (r₂, run₂, l₂) =
      recv_exact-stream block (b',' ∷ later) (record c { incoming = r₁ }) l₁.streams in
    let (r₃, run₃, l₃) =
      recv_exact-stream (b',' ∷ []) later (record c { incoming = r₂ }) l₂.streams in
    let written : is_empty digits ≡ false = nonempty digits (decimal_nonempty n) in
    let positive : (n == 0) ≡ false = ground arith in
    let below : ltb max_headers n ≡ false = ground arith in
    (
      r₃,
      rw (run₁, written, from_digits-decimal n, positive, below, run₂, parsed, run₃) refl,
      record { streams = l₃.streams; ends = l₃.ends ∙ l₂.ends ∙ l₁.ends },
    )
  where
    nonempty : (xs : Bytes) → 1 ≤ length xs → is_empty xs ≡ false
    nonempty [] h = absurd (omega arith)
    nonempty (x ∷ xs) h = refl

module _ (parse : Text → Option Url) (max_request : ℕ) where
  -- A request of at most `_MAX_HEADERS` bytes of headers, written as a netstring, and a body of the length
  -- that CONTENT_LENGTH says and `max_request` allows is read to its end however the connection cuts it,
  -- and answered, if every `send` takes a byte at least, with the response of the mode that its URI and its
  -- headers select, and nothing else.
  pub handle_scgi-answers :
      (headers : List (Text × Bytes)) (received later : Bytes) (response : Response)
      (c : Connection)
      → All (λ h. IsField h.0 × IsField h.1) headers
      → 1 ≤ length (scgi_bytes headers)
      → length (scgi_bytes headers) ≤ max_headers
      → int (get_default (get (codes "CONTENT_LENGTH") (put_all headers [])) (codes "0"))
        ≡ some (false, length received)
      → length received ≤ max_request
      → response_plan
          (select_mode parse
            (get_default (get (codes "REQUEST_URI") (put_all headers [])) (codes "/"))
            (http_headers (put_all headers []) []))
          false
          received
        ≡ ok response
      → All (λ n. 1 ≤ n) c.accepts
      → stream c.incoming ≡ netstring (scgi_bytes headers) ++ (received ++ later)
      → (rest : List Arrival) × (accepts : List ℕ) × (handle_scgi parse max_request c ≡ (
        ok true,
        record c { incoming = rest; accepts = accepts; sent = c.sent ++ response.content },
      ))
        × Leaves c.incoming rest later
  unfolding handle_scgi scgi_respond bad_length
  handle_scgi-answers headers received later response c fields some_bytes fits size small planned
        takes e =
      let (r₁, run₁, l₁) =
        recv_scgi_headers-stream (scgi_bytes headers) (received ++ later) (put_all headers []) c
          (parse_scgi_headers-scgi_bytes headers fields) some_bytes fits e in
      let (r₂, run₂, l₂) =
        recv_some-stream received later (record c { incoming = r₁ }) l₁.streams in
      let (accepts, sends) =
        send_response-sends response.content response.short_writes (record c { incoming = r₂ })
          takes in
      let allowed : ltb max_request (length received) ≡ false = ground arith in
      (
        r₂,
        accepts,
        rw (run₁, size, allowed, run₂, planned, sends) refl,
        record { streams = l₂.streams; ends = l₂.ends ∙ l₁.ends },
      )
