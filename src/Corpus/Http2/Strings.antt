-- ===== src/Corpus/Http2/Strings.antt =====
-- Strings and literal fields: what `hpack_raw_string`, `hpack_literal` and `hpack_literal_name` write.
use lighttpd_fuzz.Base.{
  ℕ, zero, suc, ◌<◌, ◌∷◌, ◌++◌, ◌≡◌, refl, ap, ◌∙◌, length, append_assoc, some, ok, arith,
}
use lighttpd_fuzz.Base.Bytes.{Bytes}
use lighttpd_fuzz.Corpus.Http2.{hpack_raw_string, hpack_literal, hpack_literal_name}
use lighttpd_fuzz.Corpus.Http2.Wire.{
  split_at, read_integer, read_string, Field, literal, named, read_field,
}
use lighttpd_fuzz.Corpus.Http2.Integers.{hpack_integer-IsInteger, split_at-append}

-- A written string: `value` is read back.
pub record IsText (value out : Bytes) : Type 0 where
  pub read : (rest : Bytes) → read_string (out ++ rest) ≡ some (value, rest)

read_string_short :
    (b size : ℕ) (bs rest : Bytes)
    → b < 128
    → read_integer 7 (b ∷ bs) ≡ some (size, rest)
    → read_string (b ∷ bs) ≡ split_at size rest
unfolding read_string
read_string_short b size bs rest h e = ground arith

-- Every string is written, whatever its length, and read back.
pub hpack_raw_string-IsText :
    (value : Bytes) → (out : Bytes) × (hpack_raw_string value ≡ ok out) × IsText value out
unfolding hpack_raw_string
hpack_raw_string-IsText value =
    let (size, e, i) = hpack_integer-IsInteger (length value) 7 0 (omega arith) (omega arith) in
    (
      size ++ value,
      rw e,
      record {
        read = λ rest.
            let at : read_integer 7 (i.first ∷ (i.more ++ (value ++ rest)))
                ≡ some (length value, value ++ rest) =
              rw i.out_eq at (i.read (value ++ rest)) in
            let b : i.first < 128 = (let h = i.high_bits in omega arith) in
            ap read_string (append_assoc size value rest ∙ ap (λ t. t ++ (value ++ rest)) i.out_eq)
            ∙ read_string_short i.first (length value) _ _ b at
            ∙ split_at-append value rest;
      },
    )

pub record IsField (field : Field) (out : Bytes) : Type 0 where
  pub first : ℕ
  pub more : Bytes
  pub out_eq : out ≡ first ∷ more
  pub read : (rest : Bytes) → read_field (out ++ rest) ≡ some (field, rest)

read_field_literal :
    (b index : ℕ) (bs rest rest' value : Bytes)
    → b < 16
    → 0 < index
    → read_integer 4 (b ∷ bs) ≡ some (index, rest)
    → read_string rest ≡ some (value, rest')
    → read_field (b ∷ bs) ≡ some (literal index value, rest')
unfolding read_field
read_field_literal b zero bs rest rest' value h pos e r = absurd (omega arith)
read_field_literal b (suc index) bs rest rest' value h pos e r = ground arith

read_field_named :
    (bs rest rest' name value : Bytes)
    → read_string bs ≡ some (name, rest)
    → read_string rest ≡ some (value, rest')
    → read_field (0 ∷ bs) ≡ some (named name value, rest')
unfolding read_field read_integer
read_field_named bs rest rest' name value e r = rw (e, r)

-- A literal whose name stands in the table is written for every index but 0, and read back.
pub hpack_literal-IsField :
    (index : ℕ) (value : Bytes)
    → 0 < index
    → (out : Bytes) × (hpack_literal index value ≡ ok out) × IsField (literal index value) out
unfolding hpack_literal
hpack_literal-IsField index value pos =
    let (name, e, i) = hpack_integer-IsInteger index 4 0 (omega arith) (omega arith) in
    let (text, e', s) = hpack_raw_string-IsText value in
    (
      name ++ text,
      rw (e, e'),
      record {
        first = i.first;
        more = i.more ++ text;
        out_eq = ap (λ t. t ++ text) i.out_eq;
        read = λ rest.
            let at : read_integer 4 (i.first ∷ (i.more ++ (text ++ rest)))
                ≡ some (index, text ++ rest) =
              rw i.out_eq at (i.read (text ++ rest)) in
            let b : i.first < 16 = (let h = i.high_bits in omega arith) in
            ap read_field (append_assoc name text rest ∙ ap (λ t. t ++ (text ++ rest)) i.out_eq)
            ∙ read_field_literal i.first index _ _ rest value b pos at (s.read rest);
      },
    )

-- A literal with a name of its own is written for every name and value, and read back.
pub hpack_literal_name-IsField :
    (name value : Bytes)
    → (out : Bytes) × (hpack_literal_name name value ≡ ok out) × IsField (named name value) out
unfolding hpack_literal_name
hpack_literal_name-IsField name value =
    let (n, e, i) = hpack_raw_string-IsText name in
    let (v, e', s) = hpack_raw_string-IsText value in
    (
      0 ∷ (n ++ v),
      rw (e, e'),
      record {
        first = 0;
        more = n ++ v;
        out_eq = refl;
        read = λ rest.
            ap (λ t. read_field (0 ∷ t)) (append_assoc n v rest)
            ∙ read_field_named _ _ rest name value (i.read (v ++ rest)) (s.read rest);
      },
    )
