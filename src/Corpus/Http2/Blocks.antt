-- ===== src/Corpus/Http2/Blocks.antt =====
-- Blocks of fields: what several fields, one behind the other, are read as.
use lighttpd_fuzz.Base.{
  ℕ, zero, suc, ◌+◌, ◌≤◌, ◌<◌, List, [], ◌∷◌, ◌++◌, ◌≡◌, refl, ap, ◌∙◌, Bool-cases, inl, inr,
  length, length-append, some, ok, arith,
}
use lighttpd_fuzz.Base.Bytes.{Bytes, codes, bytes_eq, bytes_eq→eq}
use lighttpd_fuzz.Corpus.Http2.{join_literals, method_field}
use lighttpd_fuzz.Corpus.Http2.Wire.{
  Header, Field, indexed, literal, named, read_integer, read_field, read_fields, read_block, header,
  header_list, static_entry, read_headers,
}
use lighttpd_fuzz.Corpus.Http2.Strings.{IsField, hpack_literal-IsField, hpack_literal_name-IsField}

-- Bytes that are read as the headers `hs`, with any fuel that their length allows.
pub record IsBlock (hs : List Header) (out : Bytes) : Type 0 where
  pub fields : List Field
  pub headers : header_list fields ≡ some hs
  pub read : (fuel : ℕ) → length out ≤ fuel → read_fields fuel out ≡ some fields

pub IsBlock-nil : IsBlock [] []
unfolding read_fields header_list
IsBlock-nil = record { fields = []; headers = refl; read = λ fuel h. refl }

read_fields_step :
    (fuel b : ℕ) (bs rest : Bytes) (f : Field) (fs : List Field)
    → read_field (b ∷ bs) ≡ some (f, rest)
    → read_fields fuel rest ≡ some fs
    → read_fields (suc fuel) (b ∷ bs) ≡ some (f ∷ fs)
unfolding read_fields
read_fields_step fuel b bs rest f fs e r = rw (e, r)

header_list_step :
    (f : Field) (fs : List Field) (h : Header) (hs : List Header)
    → header f ≡ some h
    → header_list fs ≡ some hs
    → header_list (f ∷ fs) ≡ some (h ∷ hs)
unfolding header_list
header_list_step f fs h hs e r = rw (e, r)

pub IsBlock-cons :
    (f : Field) (h : Header) (hs : List Header) (a b : Bytes)
    → header f ≡ some h
    → IsField f a
    → IsBlock hs b
    → IsBlock (h ∷ hs) (a ++ b)
IsBlock-cons f h hs a b e i k = record {
  fields = f ∷ k.fields;
  headers = header_list_step f k.fields h hs e k.headers;
  read = λ fuel n. go fuel n;
}
  where
    go : (fuel : ℕ) → length (a ++ b) ≤ fuel → read_fields fuel (a ++ b) ≡ some (f ∷ k.fields)
    go zero n = absurd (omega (arith, length-append a b, ap (λ (t : Bytes). length t) i.out_eq))
    go (suc fuel) n =
        let e' : a ++ b ≡ i.first ∷ (i.more ++ b) = ap (λ t. t ++ b) i.out_eq in
        ap (read_fields (suc fuel)) e'
        ∙ read_fields_step fuel i.first (i.more ++ b) b f k.fields (rw (← e') (i.read b))
            (k.read fuel (omega (arith, length-append a b, ap (λ (t : Bytes). length t) i.out_eq)))

pub IsBlock-read_headers :
    (hs : List Header) (out : Bytes) → IsBlock hs out → read_headers out ≡ some hs
unfolding read_headers read_block
IsBlock-read_headers hs out b = rw (b.read (length out) (omega arith)) b.headers

read_indexed :
    (b index : ℕ) (rest : Bytes)
    → b ≡ 128 + index
    → index < 127
    → read_field (b ∷ rest) ≡ some (indexed index, rest)
unfolding read_field read_integer
read_indexed b index rest e h = ground arith

-- A byte from 128 to 254 alone is an entry of the table.
pub IsField-indexed :
    (b index : ℕ) → b ≡ 128 + index → index < 127 → IsField (indexed index) (b ∷ [])
IsField-indexed b index e h = record {
  first = b;
  more = [];
  out_eq = refl;
  read = λ rest. read_indexed b index rest e h;
}

pub join_literals-IsBlock :
    (hs : List Header) → (out : Bytes) × (join_literals hs ≡ ok out) × IsBlock hs out
unfolding join_literals
join_literals-IsBlock [] = ([], refl, IsBlock-nil)
join_literals-IsBlock ((name, value) ∷ hs) =
    let (a, e, i) = hpack_literal_name-IsField name value in
    let (b, e', k) = join_literals-IsBlock hs in
    (
      a ++ b,
      rw (e, e'),
      IsBlock-cons (named name value) (name, value) hs a b (unfold header in refl) i k,
    )

pub method_field-IsField :
    (method : Bytes)
    → (out : Bytes) × (f : Field) × (method_field method ≡ ok out)
      × IsField f out
      × (header f ≡ some (codes ":method", method))
unfolding method_field header static_entry
method_field-IsField method = elim (Bool-cases (bytes_eq method (codes "GET"))) [
  | inl get ↦ (
    0x82 ∷ [],
    indexed 2,
    rw get,
    IsField-indexed 0x82 2 refl (omega arith),
    rw (bytes_eq→eq method (codes "GET") get),
  )
  | inr other ↦
      let (out, e, i) = hpack_literal-IsField 2 method (omega arith) in
      (out, literal 2 method, rw other e, i, refl)
]
