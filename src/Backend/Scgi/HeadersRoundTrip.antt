-- ===== src/Backend/Scgi/HeadersRoundTrip.antt =====
-- Headers that are written as SCGI wants them are read by `parse_scgi_headers`.
use lighttpd_fuzz.Base.{
  List, [], ◌∷◌, ◌++◌, ◌≡◌, ◌≢◌, refl, sym, ap, ◌∙◌, append_assoc, append-nil, false, ◌==◌, All, ok,
  arith,
}
use lighttpd_fuzz.Base.Bytes.{Bytes}
use lighttpd_fuzz.Base.Text.{Text, put}
use lighttpd_fuzz.Backend.Scgi.Headers.{split_fields, pop_empty, pair_fields, parse_scgi_headers}
use lighttpd_fuzz.Backend.FastCgi.RoundTrip.{put_all}

-- Each name and each value ends in a byte 0.
unfoldable pub scgi_bytes : List (Text × Bytes) → Bytes
scgi_bytes [] = []
scgi_bytes ((name, value) ∷ headers) = name ++ 0 ∷ (value ++ 0 ∷ scgi_bytes headers)

abbrev pub IsField : Bytes → Type 0
IsField = All (λ b. b ≢ 0)

abbrev fields : List (Text × Bytes) → List Bytes
fields [] = []
fields ((name, value) ∷ headers) = name ∷ value ∷ fields headers

split_fields-append :
    (front field rest : Bytes)
    → IsField field
    → split_fields front (field ++ 0 ∷ rest) ≡ (front ++ field) ∷ split_fields [] rest
unfolding split_fields
split_fields-append front [] rest h = ap (λ t. t ∷ split_fields [] rest) (sym (append-nil front))
split_fields-append front (b ∷ bs) rest (h, hs) =
    let other : (b == 0) ≡ false = ground arith in
    rw other (
      split_fields-append (front ++ b ∷ []) bs rest hs
      ∙ ap (λ t. t ∷ split_fields [] rest) (append_assoc front (b ∷ []) bs))

split_fields-scgi_bytes :
    (headers : List (Text × Bytes))
    → All (λ h. IsField h.0 × IsField h.1) headers
    → split_fields [] (scgi_bytes headers) ≡ fields headers ++ [] ∷ []
unfolding split_fields scgi_bytes
split_fields-scgi_bytes [] h = refl
split_fields-scgi_bytes ((name, value) ∷ headers) ((h, k), hs) =
    split_fields-append [] name (value ++ 0 ∷ scgi_bytes headers) h
    ∙ ap (λ t. name ∷ t) (split_fields-append [] value (scgi_bytes headers) k)
    ∙ ap (λ t. name ∷ value ∷ t) (split_fields-scgi_bytes headers hs)

pop_empty-append : (front : List Bytes) → pop_empty (front ++ [] ∷ []) ≡ front
unfolding pop_empty
pop_empty-append [] = refl
pop_empty-append (f ∷ []) = refl
pop_empty-append (f ∷ g ∷ fs) = ap (λ t. f ∷ t) (pop_empty-append (g ∷ fs))

pair_fields-fields :
    (headers result : List (Text × Bytes))
    → pair_fields (fields headers) result ≡ ok (put_all headers result)
unfolding pair_fields put_all
pair_fields-fields [] result = refl
pair_fields-fields ((name, value) ∷ headers) result =
    pair_fields-fields headers (put name value result)

-- Headers without a byte 0 in a name or a value, each written behind the other with a byte 0 at its
-- end, are read by `parse_scgi_headers` as the dictionary that they make.
pub parse_scgi_headers-scgi_bytes :
    (headers : List (Text × Bytes))
    → All (λ h. IsField h.0 × IsField h.1) headers
    → parse_scgi_headers (scgi_bytes headers) ≡ ok (put_all headers [])
unfolding parse_scgi_headers
parse_scgi_headers-scgi_bytes headers h =
    ap (λ t. pair_fields (pop_empty t) []) (split_fields-scgi_bytes headers h)
    ∙ ap (λ t. pair_fields t []) (pop_empty-append (fields headers))
    ∙ pair_fields-fields headers []
