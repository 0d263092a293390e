-- ===== src/Backend/Http/Request.antt =====
-- A request of HTTP/1.1 as a client writes it, and what `_parse_http_headers` reads of it.
use lighttpd_fuzz.Base.{
  ℕ, ◌-◌, ◌≤◌, List, [], ◌∷◌, ◌++◌, ◌≡◌, ◌≢◌, refl, sym, ap, ◌∙◌, true, false, ◌==◌, length,
  length-append, append_assoc, append-nil, map, take, take-append_length, All, All-append, Option,
  some, none, ok, arith,
}
use lighttpd_fuzz.Base.Bytes.{Bytes, codes}
use lighttpd_fuzz.Base.Text.{Text, put, lower, strip, is_space, is_ascii_space, starts_with}
use lighttpd_fuzz.Backend.Http.{
  split_at, end_of_headers, split_pieces, request_parts, parse_lines, put_header, valid_uri,
  with_headers, parse_request, parse_http_headers,
}
use lighttpd_fuzz.Backend.Http.Split.{split_at-first}

-- The lines of a head, each but the first behind the end of the line before it.
unfoldable pub join_crlf : Bytes → List Bytes → Bytes
join_crlf line [] = line
join_crlf line (next ∷ lines) = line ++ (13 ∷ 10 ∷ join_crlf next lines)

abbrev pub HasNo : ℕ → Bytes → Type 0
HasNo c = All (λ b. b ≢ c)

abbrev pub IsLine : Bytes → Type 0
IsLine line = HasNo 13 line × (1 ≤ length line)

-- `split` finds the lines again.
split_pieces-line :
    (piece line rest : Bytes)
    → HasNo 13 line
    → split_pieces (codes "\r\n") 0 piece (line ++ (13 ∷ 10 ∷ rest))
      ≡ (piece ++ line) ∷ split_pieces (codes "\r\n") 0 [] rest
unfolding split_pieces starts_with
split_pieces-line piece [] rest h = rw (append-nil piece) refl
split_pieces-line piece (b ∷ line) rest (h, hs) =
    let away : (b == 13) ≡ false = ground arith in
    rw away (
      split_pieces-line (piece ++ b ∷ []) line rest hs
      ∙ ap (λ t. t ∷ split_pieces (codes "\r\n") 0 [] rest) (append_assoc piece (b ∷ []) line))

split_pieces-last :
    (piece line : Bytes)
    → HasNo 13 line
    → split_pieces (codes "\r\n") 0 piece line ≡ (piece ++ line) ∷ []
unfolding split_pieces starts_with
split_pieces-last piece [] h = rw (append-nil piece) refl
split_pieces-last piece (b ∷ line) (h, hs) =
    let away : (b == 13) ≡ false = ground arith in
    rw away (
      split_pieces-last (piece ++ b ∷ []) line hs
      ∙ ap (λ t. t ∷ []) (append_assoc piece (b ∷ []) line))

split_pieces-join_crlf :
    (line : Bytes) (lines : List Bytes)
    → HasNo 13 line
    → All IsLine lines
    → split_pieces (codes "\r\n") 0 [] (join_crlf line lines) ≡ line ∷ lines
unfolding join_crlf
split_pieces-join_crlf line [] h hs = split_pieces-last [] line h
split_pieces-join_crlf line (next ∷ lines) h ((k, n), hs) =
    split_pieces-line [] line (join_crlf next lines) h
    ∙ ap (λ t. line ∷ t) (split_pieces-join_crlf next lines k hs)

-- The first empty line is behind the last of the lines.
split_at-line :
    (front line rest : Bytes)
    → HasNo 13 line
    → split_at end_of_headers front (line ++ rest) ≡ split_at end_of_headers (front ++ line) rest
unfolding split_at starts_with
split_at-line front [] rest h = rw (append-nil front) refl
split_at-line front (b ∷ line) rest (h, hs) =
    let away : (b == 13) ≡ false = ground arith in
    rw away (
      split_at-line (front ++ b ∷ []) line rest hs
      ∙ ap (λ t. split_at end_of_headers t rest) (append_assoc front (b ∷ []) line))

-- An end of a line with a further line behind it is none of the head.
split_at-crlf :
    (front line rest : Bytes)
    → IsLine line
    → split_at end_of_headers front (13 ∷ 10 ∷ (line ++ rest))
      ≡ split_at end_of_headers (front ++ (13 ∷ 10 ∷ [])) (line ++ rest)
unfolding split_at starts_with
split_at-crlf front [] rest (h, n) = absurd (omega arith)
split_at-crlf front (b ∷ line) rest ((h, hs), n) =
    let away : (b == 13) ≡ false = ground arith in
    rw (away, append_assoc front (13 ∷ []) (10 ∷ [])) refl

-- A head begins with its first line.
join_crlf-begins :
    (line : Bytes) (lines : List Bytes) (later : Bytes)
    → (rest : Bytes) × (join_crlf line lines ++ later ≡ line ++ rest)
unfolding join_crlf
join_crlf-begins line [] later = (later, refl)
join_crlf-begins line (next ∷ lines) later = (
  13 ∷ 10 ∷ (join_crlf next lines ++ later),
  append_assoc line (13 ∷ 10 ∷ join_crlf next lines) later,
)

split_at-join_crlf :
    (front line : Bytes) (lines : List Bytes)
    → HasNo 13 line
    → All IsLine lines
    → split_at end_of_headers front (join_crlf line lines ++ end_of_headers)
      ≡ some (front ++ join_crlf line lines, [])
unfolding join_crlf
split_at-join_crlf front line [] h hs =
    split_at-line front line end_of_headers h ∙ (unfold split_at starts_with in refl)
split_at-join_crlf front line (next ∷ lines) h (k, ks) =
    let tail : Bytes = join_crlf next lines ++ end_of_headers in
    let (rest, begins) = join_crlf-begins next lines end_of_headers in
    let crossed : split_at end_of_headers (front ++ line) (13 ∷ 10 ∷ tail)
        ≡ split_at end_of_headers ((front ++ line) ++ (13 ∷ 10 ∷ [])) tail =
      ap (λ t. split_at end_of_headers (front ++ line) (13 ∷ 10 ∷ t)) begins
      ∙ split_at-crlf (front ++ line) next rest k
      ∙ ap (λ t. split_at end_of_headers ((front ++ line) ++ (13 ∷ 10 ∷ [])) t) (sym begins) in
    ap (split_at end_of_headers front)
      (append_assoc line (13 ∷ 10 ∷ join_crlf next lines) end_of_headers)
    ∙ split_at-line front line (13 ∷ 10 ∷ tail) h
    ∙ crossed
    ∙ split_at-join_crlf ((front ++ line) ++ (13 ∷ 10 ∷ [])) next lines k.0 ks
    ∙ ap (λ (t : Bytes). some (t, []))
        (append_assoc (front ++ line) (13 ∷ 10 ∷ []) (join_crlf next lines)
          ∙ append_assoc front line (13 ∷ 10 ∷ join_crlf next lines))

-- The request line, and the line of a header.
unfoldable pub request_line : Bytes → Bytes → Bytes → Bytes
request_line method uri version = method ++ (b' ' ∷ (uri ++ (b' ' ∷ version)))

abbrev pub field_line : Text × Bytes → Bytes
field_line (key, value) = key ++ (b':' ∷ value)

unfoldable pub head_bytes : Bytes → Bytes → Bytes → List (Text × Bytes) → Bytes
head_bytes method uri version fields =
    join_crlf (request_line method uri version) (map field_line fields) ++ end_of_headers

-- The dictionary that the headers make one after the other.
unfoldable pub put_fields : List (Text × Bytes) → List (Text × Bytes) → List (Text × Bytes)
put_fields [] headers = headers
put_fields ((key, value) ∷ fields) headers =
    put_fields fields (put (map lower (strip is_space key)) (strip is_ascii_space value) headers)

-- A header that a line can hold.
abbrev pub IsHeader : Text × Bytes → Type 0
IsHeader (key, value) = HasNo 13 key × HasNo b':' key × HasNo 13 value

-- What the request line is made of.
pub record IsRequest (method uri version : Bytes) : Type 0 where
  pub some_method : 1 ≤ length method
  pub some_uri : 1 ≤ length uri
  pub method_line : HasNo 13 method
  pub uri_line : HasNo 13 uri
  pub version_line : HasNo 13 version
  pub method_word : HasNo b' ' method
  pub uri_word : HasNo b' ' uri
  pub known_version : starts_with version (codes "HTTP/") ≡ true

field_lines :
    (fields : List (Text × Bytes)) → All IsHeader fields → All IsLine (map field_line fields)
field_lines [] h = tt
field_lines ((key, value) ∷ fields) ((a, b, c), hs) = (
  (
    All-append (λ b. b ≢ 13) key (b':' ∷ value) a ((λ e. omega arith), c),
    omega (arith, length-append key (b':' ∷ value)),
  ),
  field_lines fields hs,
)

parse_lines-put_fields :
    (fields headers : List (Text × Bytes))
    → All IsHeader fields
    → parse_lines (map field_line fields) headers ≡ put_fields fields headers
unfolding parse_lines put_fields
parse_lines-put_fields [] headers h = refl
parse_lines-put_fields ((key, value) ∷ fields) headers ((a, b, c), hs) =
    ap (λ t. parse_lines (map field_line fields) (put_header t headers))
      (split_at-first b':' [] key value b)
    ∙ parse_lines-put_fields fields _ hs

request_parts-request_line :
    (method uri version : Bytes)
    → IsRequest method uri version
    → request_parts (request_line method uri version) ≡ some (method, (uri, version))
unfolding request_parts request_line
request_parts-request_line method uri version h =
    ap
      (λ t. elim t [ none ↦ none | some (a, rest) ↦ after_method a (split_at (b' ' ∷ []) [] rest) ])
      (split_at-first b' ' [] method (uri ++ (b' ' ∷ version)) h.method_word)
    ∙ ap (after_method method) (split_at-first b' ' [] uri version h.uri_word)
  where
    after_method : Bytes → Option (Bytes × Bytes) → Option (Bytes × (Bytes × Bytes))
    after_method a none = none
    after_method a (some (u, v)) = some (a, (u, v))

request_line-HasNo :
    (method uri version : Bytes)
    → IsRequest method uri version
    → HasNo 13 (request_line method uri version)
unfolding request_line
request_line-HasNo method uri version h =
    All-append (λ b. b ≢ 13) method _ h.method_line
      (
        (λ e. omega arith),
        All-append (λ b. b ≢ 13) uri _ h.uri_line ((λ e. omega arith), h.version_line),
      )

valid_request :
    (method uri version : Bytes)
    → IsRequest method uri version
    → valid_uri (some (method, (uri, version))) ≡ ok uri
valid_request [] uri version h = absurd (omega (arith, h.some_method))
valid_request (m ∷ method) [] version h = absurd (omega (arith, h.some_uri))
valid_request (m ∷ method) (u ∷ uri) version h = rw (h.known_version) refl

module _ (method uri version : Bytes) (fields : List (Text × Bytes))
    (request : IsRequest method uri version) (headers : All IsHeader fields) where
  -- The head ends where the first empty line is found.
  pub split_at-head_bytes :
      split_at end_of_headers [] (head_bytes method uri version fields)
      ≡ some (join_crlf (request_line method uri version) (map field_line fields), [])
  unfolding head_bytes
  split_at-head_bytes =
      split_at-join_crlf [] (request_line method uri version) (map field_line fields)
        (request_line-HasNo method uri version request) (field_lines fields headers)

  -- The head is read as its URI and the dictionary of its headers.
  pub parse_http_headers-head_bytes :
      parse_http_headers (head_bytes method uri version fields) ≡ ok (uri, put_fields fields [])
  unfolding parse_http_headers head_bytes
  parse_http_headers-head_bytes =
      let lines : Bytes = join_crlf (request_line method uri version) (map field_line fields) in
      let size : length (lines ++ end_of_headers) - 4 ≡ length lines =
        omega (arith, length-append lines end_of_headers) in
      let cut : take (length (lines ++ end_of_headers) - 4) (lines ++ end_of_headers) ≡ lines =
        ap (λ n. take n (lines ++ end_of_headers)) size ∙ take-append_length lines end_of_headers in
      let pieces =
        split_pieces-join_crlf (request_line method uri version) (map field_line fields)
          (request_line-HasNo method uri version request) (field_lines fields headers) in
      ap (λ t. parse_request (split_pieces (codes "\r\n") 0 [] t)) cut
      ∙ ap parse_request pieces
      ∙ ap (λ r. with_headers (map field_line fields) (valid_uri r))
          (request_parts-request_line method uri version request)
      ∙ ap (with_headers (map field_line fields)) (valid_request method uri version request)
      ∙ ap (λ (t : List (Text × Bytes)). ok (uri, t)) (parse_lines-put_fields fields [] headers)
