-- ===== src/Corpus/Http2/Wire.antt =====
-- Readers of frames (RFC 9113, section 4.1) and of HPACK fields (RFC 7541, sections 5 and 6), in
-- plain arithmetic and apart from the code that writes them. Fields are read in the forms indexed
-- and literal without indexing, strings without the Huffman code: no other form is written.
use lighttpd_fuzz.Base.{
  ℕ, zero, suc, ◌+◌, ◌-◌, ◌*◌, ◌%◌, ◌^◌, List, [], ◌∷◌, ltb, leb, ◌==◌, if◌then◌else◌, length, take,
  drop, Option, none, some,
}
use lighttpd_fuzz.Base.Bytes.{Bytes, from_bytes, codes}

infixl 5 ◌>>=◌
abbrev pub ◌>>=◌ {ℓ κ} : {A : Type ℓ} {B : Type κ} → Option A → (A → Option B) → Option B
none >>= f = none
some a >>= f = f a

-- `size` bytes and what follows them.
unfoldable pub split_at : ℕ → Bytes → Option (Bytes × Bytes)
split_at size bs = if ltb (length bs) size then none else some (take size bs, drop size bs)

pub record Frame : Type 0 where
  pub frame_type : ℕ
  pub flags : ℕ
  pub stream_id : ℕ
  pub payload : Bytes

-- The highest bit of the stream is reserved, and is not read.
unfoldable pub read_frame : Bytes → Option (Frame × Bytes)
read_frame (l₁ ∷ l₂ ∷ l₃ ∷ t ∷ f ∷ s₁ ∷ s₂ ∷ s₃ ∷ s₄ ∷ rest) = do
  (content, rest') ← split_at (from_bytes (l₁ ∷ l₂ ∷ l₃ ∷ [])) rest
  some (
    record {
      frame_type = t;
      flags = f;
      stream_id = from_bytes (s₁ ∷ s₂ ∷ s₃ ∷ s₄ ∷ []) % 2 ^ 31;
      payload = content;
    },
    rest',
  )
read_frame _ = none

-- Seven bits a byte, the lowest first; the last byte is below 128.
unfoldable pub read_tail : Bytes → Option (ℕ × Bytes)
read_tail [] = none
read_tail (b ∷ bs) =
    let more = (do (n, rest) ← read_tail bs; some (b - 128 + 128 * n, rest)) in
    if ltb b 128 then some (b, bs) else more

-- An integer whose first bits share a byte with something else.
unfoldable pub read_integer : ℕ → Bytes → Option (ℕ × Bytes)
read_integer prefix_bits [] = none
read_integer prefix_bits (b ∷ bs) =
    let low = b % 2 ^ prefix_bits in
    if low == 2 ^ prefix_bits - 1
    then (do (n, rest) ← read_tail bs; some (low + n, rest))
    else some (low, bs)

unfoldable pub read_string : Bytes → Option (Bytes × Bytes)
read_string [] = none
read_string (b ∷ bs) =
    if leb 128 b then none else (do (size, rest) ← read_integer 7 (b ∷ bs); split_at size rest)

-- A field from the table; one whose name is from the table; one with its own name.
pub data Field : Type 0 where
  indexed : ℕ → Field
  literal : ℕ → Bytes → Field
  named : Bytes → Bytes → Field

read_literal : ℕ → Bytes → Option (Field × Bytes)
read_literal zero bs = do
  (name, rest) ← read_string bs
  (value, rest') ← read_string rest
  some (named name value, rest')
read_literal (suc index) bs = do
  (value, rest) ← read_string bs
  some (literal (suc index) value, rest)

unfoldable pub read_field : Bytes → Option (Field × Bytes)
unfolding read_literal
read_field [] = none
read_field (b ∷ bs) =
    if leb 128 b
    then (do (index, rest) ← read_integer 7 (b ∷ bs); some (indexed index, rest))
    else if ltb b 16
    then (do (index, rest) ← read_integer 4 (b ∷ bs); read_literal index rest)
    else none

-- All fields of a block. A field takes a byte at least, so its length is enough fuel.
unfoldable pub read_fields : ℕ → Bytes → Option (List Field)
read_fields fuel [] = some []
read_fields zero (b ∷ bs) = none
read_fields (suc fuel) (b ∷ bs) = do
  (field, rest) ← read_field (b ∷ bs)
  fields ← read_fields fuel rest
  some (field ∷ fields)

unfoldable pub read_block : Bytes → Option (List Field)
read_block bs = read_fields (length bs) bs

abbrev pub Header : Type 0
Header = Bytes × Bytes

-- The entries 1 to 7 of the static table (RFC 7541, appendix A).
unfoldable pub static_entry : ℕ → Option Header
static_entry index =
    if index == 1
    then some (codes ":authority", [])
    else if index == 2
    then some (codes ":method", codes "GET")
    else if index == 3
    then some (codes ":method", codes "POST")
    else if index == 4
    then some (codes ":path", codes "/")
    else if index == 5
    then some (codes ":path", codes "/index.html")
    else if index == 6
    then some (codes ":scheme", codes "http")
    else if index == 7
    then some (codes ":scheme", codes "https")
    else none

unfoldable pub header : Field → Option Header
header (indexed index) = static_entry index
header (literal index value) = do (name, _) ← static_entry index; some (name, value)
header (named name value) = some (name, value)

unfoldable pub header_list : List Field → Option (List Header)
header_list [] = some []
header_list (field ∷ fields) = do h ← header field; hs ← header_list fields; some (h ∷ hs)

-- The headers that a block stands for.
unfoldable pub read_headers : Bytes → Option (List Header)
read_headers bs = do fields ← read_block bs; header_list fields
