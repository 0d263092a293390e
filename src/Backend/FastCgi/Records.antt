-- ===== src/Backend/FastCgi/Records.antt =====
-- Records that are written with `fcgi_record` are read by a round of `handle_fastcgi`.
use lighttpd_fuzz.Base.{
  ℕ, suc, ◌/◌, ◌%◌, ◌≤◌, ◌<◌, List, [], ◌∷◌, ◌++◌, ◌≡◌, refl, ap, ◌∙◌, ◌↔◌, true, false, ltb, ◌==◌,
  Bool-cases, inl, inr, length, append_assoc, ok, err, arith, value_error, ◌>>=◌, >>=-eq-ok,
}
use lighttpd_fuzz.Base.Bits.{bit_and_ones}
use lighttpd_fuzz.Base.Bytes.{Bytes, from_bytes, byte_string, all_bytes}
use lighttpd_fuzz.Backend.Socket.{Connection, Arrival, recv_exact}
use lighttpd_fuzz.Backend.Socket.Stream.{stream, Leaves, recv_exact-stream}
use lighttpd_fuzz.Backend.FastCgi.Params.{fcgi_record}
use lighttpd_fuzz.Backend.FastCgi.Handler.{read_header, recv_some, recv_record}

-- The header of FastCGI: the version, the type, two bytes for the identifier and two for the length of
-- the content, no padding, and a reserved byte.
unfoldable pub header_bytes : ℕ → ℕ → ℕ → Bytes
header_bytes record_type request_id size =
    1 ∷ record_type ∷ request_id / 256 ∷ request_id % 256 ∷ size / 256 ∷ size % 256 ∷ 0 ∷ 0 ∷ []

byte_string-eq-ok :
    (bs : Bytes) {out : Bytes} → byte_string bs ≡ ok out → (all_bytes bs ≡ true) × (out ≡ bs)
unfolding byte_string
byte_string-eq-ok bs e = elim (Bool-cases (all_bytes bs)) [
  | inl fits ↦ (fits, cc (rw fits at e))
  | inr not_byte ↦ cc (rw not_byte at e)
]

pub fcgi_record_long :
    (record_type request_id : ℕ) (content : Bytes)
    → ltb 0xffff (length content) ≡ true
    → fcgi_record record_type request_id content ≡ err (value_error "FastCGI record too large")
unfolding fcgi_record
fcgi_record_long t i content long = rw long

fcgi_record_fits :
    (record_type request_id : ℕ) (content : Bytes)
    → ltb 0xffff (length content) ≡ false
    → fcgi_record record_type request_id content ≡ (
        byte_string (header_bytes record_type request_id (length content)) >>= λ head.
        ok (head ++ content))
unfolding fcgi_record header_bytes
fcgi_record_fits t i content fits = rw (fits, bit_and_ones i 8, bit_and_ones (length content) 8)

header_bytes_lem : (t i n : ℕ) → all_bytes (header_bytes t i n) ≡ true → (t < 256) × (i < 65536)
unfolding header_bytes
header_bytes_lem t i n h = (ground arith, ground arith)

header_all_bytes :
    (t i n : ℕ)
    → t < 256
    → i < 65536
    → n < 65536
    → byte_string (header_bytes t i n) ≡ ok (header_bytes t i n)
unfolding byte_string header_bytes
header_all_bytes t i n h k l = let e : all_bytes (header_bytes t i n) ≡ true = ground arith in rw e

-- `fcgi_record` returns exactly when the type is a byte and the identifier and the length of the
-- content fit in two, and what it returns is the header and the content.
pub fcgi_record_iff :
    (record_type request_id : ℕ) (content out : Bytes)
    → (fcgi_record record_type request_id content ≡ ok out) ↔ (
        (record_type < 256)
        × (request_id < 65536)
        × (length content < 65536)
        × (out ≡ header_bytes record_type request_id (length content) ++ content))
fcgi_record_iff t i content out = (
  λ e. elim (Bool-cases (ltb 0xffff (length content))) [
    | inl long ↦ cc (e, fcgi_record_long t i content long)
    | inr fits ↦
        let (head, made, q) = >>=-eq-ok _ _ (rw (fcgi_record_fits t i content fits) at e) in
        let (bytes, same) = byte_string-eq-ok _ made in
        let (a, b) = header_bytes_lem t i (length content) bytes in
        (a, b, ground arith, cc (q, same))
  ],
  λ h.
      let (a, b, c, d) = h in
      let fits : ltb 0xffff (length content) ≡ false = ground arith in
      fcgi_record_fits t i content fits ∙ rw (header_all_bytes t i (length content) a b c, d),
)

pub recv_some-stream :
    (want later : Bytes) (c : Connection)
    → stream c.incoming ≡ want ++ later
    → (rest : List Arrival) × (recv_some (length want) c ≡ (ok want, record c { incoming = rest }))
      × Leaves c.incoming rest later
unfolding recv_some
recv_some-stream [] later c e = (c.incoming, refl, record { streams = e; ends = refl })
recv_some-stream (w ∷ ws) later c e =
    let some_bytes : (suc (length ws) == 0) ≡ false = ground arith in
    let (rest, run, leaves) = recv_exact-stream (w ∷ ws) later c e in
    (rest, rw some_bytes run, leaves)

read_header-header_bytes :
    (t i n : ℕ)
    → read_header (header_bytes t i n)
      ≡ ok (record {
        version = 1;
        header_type = t;
        header_id = i;
        content_length = n;
        padding_length = 0;
      })
unfolding read_header header_bytes
read_header-header_bytes t i n =
    let id : from_bytes (i / 256 ∷ i % 256 ∷ []) ≡ i = omega arith in
    let size : from_bytes (n / 256 ∷ n % 256 ∷ []) ≡ n = omega arith in
    ap (λ h. ok h)
      (ap
          (λ a. record {
            version = 1;
            header_type = t;
            header_id = a;
            content_length = from_bytes (n / 256 ∷ n % 256 ∷ []);
            padding_length = 0;
          })
          id
        ∙ ap
            (λ a. record {
              version = 1;
              header_type = t;
              header_id = i;
              content_length = a;
              padding_length = 0;
            })
            size)

-- If the stream begins with what `fcgi_record` returns for an identifier that is not 0, `recv_record`
-- returns the record, however the stream is cut, and leaves the rest of the stream; nothing is sent.
pub recv_record-fcgi_record :
    (record_type request_id : ℕ) (content out later : Bytes) (c : Connection)
    → fcgi_record record_type request_id content ≡ ok out
    → 1 ≤ request_id
    → stream c.incoming ≡ out ++ later
    → (rest : List Arrival) × (recv_record c ≡ (
      ok (record { record_type = record_type; request_id = request_id; content = content }),
      record c { incoming = rest },
    ))
      × Leaves c.incoming rest later
unfolding recv_record recv_some
recv_record-fcgi_record t i content out later c made positive e =
    let size = length content in
    let (_, _, _, q) = (fcgi_record_iff t i content out).0 made in
    let s : stream c.incoming ≡ header_bytes t i size ++ (content ++ later) =
      e ∙ ap (λ o. o ++ later) q ∙ append_assoc (header_bytes t i size) content later in
    let (rest₁, run₁, leaves₁) = recv_exact-stream (header_bytes t i size) (content ++ later) c s in
    let (rest₂, run₂, leaves₂) =
      recv_some-stream content later (record c { incoming = rest₁ }) leaves₁.streams in
    let run : recv_exact 8 c ≡ (ok (header_bytes t i size), record c { incoming = rest₁ }) =
      unfold header_bytes in run₁ in
    let id : (i == 0) ≡ false = ground arith in
    (
      rest₂,
      rw (run, read_header-header_bytes t i size, id, run₂) refl,
      record { streams = leaves₂.streams; ends = leaves₂.ends ∙ leaves₁.ends },
    )
