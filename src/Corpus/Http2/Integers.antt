-- ===== src/Corpus/Http2/Integers.antt =====
-- What `hpack_integer` writes is read back.
use lighttpd_fuzz.Base.{
  ℕ, zero, suc, ◌+◌, ◌-◌, ◌*◌, ◌/◌, ◌%◌, ◌^◌, ◌≤◌, ◌<◌, [], ◌∷◌, ◌++◌, ◌≡◌, refl, ap, ◌∙◌, ltb, leb,
  length, length-append, append_assoc, take-append_length, drop-append_length, some, ok, arith,
  Bool-cases, inl, inr, bit_and, bit_or,
}
use native.Mathlib.Nat.{mod-eq_of_lt, div-eq_of_lt, mul-add-div_right, mul-add-mod_self_right}
use lighttpd_fuzz.Base.Bits.{bit_and_ones, bit_or_128, bit_or_high, pos-pow, passes_below, eq_below}
use lighttpd_fuzz.Base.Bytes.{Bytes, byte_string}
use lighttpd_fuzz.Corpus.Http2.{hpack_loop, hpack_integer}
use lighttpd_fuzz.Corpus.Http2.Wire.{split_at, read_tail, read_integer}

pub split_at-append : (xs ys : Bytes) → split_at (length xs) (xs ++ ys) ≡ some (xs, ys)
unfolding split_at
split_at-append xs ys =
    rw (take-append_length xs ys, drop-append_length xs ys) (ground (arith, length-append xs ys))

-- The bytes that the loop appends, and what they are read as.
record Tail (value : ℕ) (result out : Bytes) : Type 0 where
  bytes : Bytes
  appended : out ≡ result ++ bytes
  read : (rest : Bytes) → read_tail (bytes ++ rest) ≡ some (value, rest)

last_byte : (value : ℕ) (rest : Bytes) → value < 128 → read_tail (value ∷ rest) ≡ some (value, rest)
unfolding read_tail
last_byte value rest h = ground arith

inner_byte :
    (value : ℕ) (bs rest : Bytes)
    → read_tail bs ≡ some (value / 128, rest)
    → read_tail ((value % 128 + 128) ∷ bs) ≡ some (value, rest)
unfolding read_tail
inner_byte value bs rest e = rw e (ground arith)

inner_group : (value : ℕ) → bit_or (bit_and value 0x7f) 0x80 ≡ value % 128 + 128
inner_group value = rw (bit_and_ones value 7) (bit_or_128 (value % 128) (omega arith))

hpack_loop-Tail :
    (fuel value : ℕ) (result : Bytes)
    → value ≤ fuel
    → Tail value result (hpack_loop fuel value result)
unfolding hpack_loop
hpack_loop-Tail zero value result h = record {
  bytes = value ∷ [];
  appended = refl;
  read = λ rest. last_byte value rest (omega arith);
}
hpack_loop-Tail (suc fuel) value result h = elim (Bool-cases (leb 128 value)) [
  | inr small ↦ rw small (record {
    bytes = value ∷ [];
    appended = refl;
    read = λ rest. last_byte value rest (ground arith);
  })
  | inl big ↦
      let group : ℕ = value % 128 + 128 in
      let t : Tail (value / 128) (result ++ group ∷ [])
          (hpack_loop fuel (value / 128) (result ++ group ∷ [])) =
        hpack_loop-Tail fuel (value / 128) (result ++ group ∷ []) (ground arith) in
      rw (big, inner_group value)
        (record {
          bytes = group ∷ t.bytes;
          appended = t.appended ∙ append_assoc result (group ∷ []) t.bytes;
          read = λ rest. inner_byte value (t.bytes ++ rest) rest (t.read rest);
        })
]

-- A written integer: `high` stands in the first byte above the prefix, and `value` is read back.
pub record IsInteger (prefix_bits high value : ℕ) (out : Bytes) : Type 0 where
  pub first : ℕ
  pub more : Bytes
  pub out_eq : out ≡ first ∷ more
  pub first_is_byte : first < 256
  pub high_bits : first / 2 ^ prefix_bits ≡ high
  pub read : (rest : Bytes) → read_integer prefix_bits (out ++ rest) ≡ some (value, rest)

byte_string_one : (b : ℕ) → b < 256 → byte_string (b ∷ []) ≡ ok (b ∷ [])
unfolding byte_string
byte_string_one b h = ground arith

eight_bits : (p : ℕ) → p < 9 → 2 ^ p * 2 ^ (8 - p) ≡ 256
unfolding passes_below
eight_bits = eq_below 9 (λ p. 2 ^ p * 2 ^ (8 - p)) (λ p. 256) refl

-- The first byte: `k` above a prefix that holds `v`.
module _ (p k v : ℕ) (hp : p ≤ 8) (hk : k < 2 ^ (8 - p)) (hv : v < 2 ^ p) where
  first_is_byte : k * 2 ^ p + v < 256
  first_is_byte = grind (arith, eight_bits p (omega arith))

  first_high : (k * 2 ^ p + v) / 2 ^ p ≡ k
  first_high = mul-add-div_right (pos-pow p) k v ∙ omega (arith, div-eq_of_lt hv)

  first_low : (k * 2 ^ p + v) % 2 ^ p ≡ v
  first_low = mul-add-mod_self_right k (2 ^ p) v ∙ mod-eq_of_lt hv

read_integer_short :
    (p b v : ℕ) (rest : Bytes)
    → b % 2 ^ p ≡ v
    → v < 2 ^ p - 1
    → read_integer p (b ∷ rest) ≡ some (v, rest)
unfolding read_integer
read_integer_short p b v rest e h = rw e (ground arith)

read_integer_long :
    (p b v : ℕ) (bs rest : Bytes)
    → b % 2 ^ p ≡ 2 ^ p - 1
    → read_tail bs ≡ some (v, rest)
    → read_integer p (b ∷ bs) ≡ some (2 ^ p - 1 + v, rest)
unfolding read_integer
read_integer_long p b v bs rest e h = rw (e, h) (ground arith)

-- `hpack_integer` returns for every value, every prefix of at most eight bits and every first byte
-- without bits in the prefix, and what it writes is read back.
pub hpack_integer-IsInteger :
    (value p k : ℕ)
    → p ≤ 8
    → k < 2 ^ (8 - p)
    → (out : Bytes) × (hpack_integer value p (k * 2 ^ p) ≡ ok out) × IsInteger p k value out
unfolding hpack_integer
hpack_integer-IsInteger value p k hp hk =
    let pos : 0 < 2 ^ p = pos-pow p in
    elim (Bool-cases (ltb value (2 ^ p - 1))) [
      | inl short ↦
          let hv : value < 2 ^ p - 1 = ground arith in
          let hv' : value < 2 ^ p = omega arith in
          let first : ℕ = k * 2 ^ p + value in
          (
            first ∷ [],
            rw (short, bit_or_high p k value (omega arith) hk hv')
                (byte_string_one first (first_is_byte p k value hp hk hv')),
            record {
              first = first;
              more = [];
              out_eq = refl;
              first_is_byte = first_is_byte p k value hp hk hv';
              high_bits = first_high p k value hp hk hv';
              read =
                  λ rest. read_integer_short p first value rest (first_low p k value hp hk hv') hv;
            },
          )
      | inr long ↦
          let ones : ℕ = 2 ^ p - 1 in
          let ho : ones < 2 ^ p = omega arith in
          let first : ℕ = k * 2 ^ p + ones in
          let left : ℕ = value - ones in
          let t : Tail left (first ∷ []) (hpack_loop left left (first ∷ [])) =
            hpack_loop-Tail left left (first ∷ []) (omega arith) in
          let whole : ones + left ≡ value = ground arith in
          (
            first ∷ t.bytes,
            rw
                (
                  long,
                  bit_or_high p k ones (omega arith) hk ho,
                  byte_string_one first (first_is_byte p k ones hp hk ho),
                )
                (ap ok t.appended),
            record {
              first = first;
              more = t.bytes;
              out_eq = refl;
              first_is_byte = first_is_byte p k ones hp hk ho;
              high_bits = first_high p k ones hp hk ho;
              read = λ rest.
                  read_integer_long p first left (t.bytes ++ rest) rest
                    (first_low p k ones hp hk ho) (t.read rest)
                  ∙ rw whole;
            },
          )
    ]
