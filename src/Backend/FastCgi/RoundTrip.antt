-- ===== src/Backend/FastCgi/RoundTrip.antt =====
-- Parameters that are written with `fcgi_length` are read by `fcgi_params`.
use lighttpd_fuzz.Base.{
  ℕ, zero, suc, ◌+◌, ◌/◌, ◌%◌, ◌^◌, ◌≤◌, ◌<◌, List, [], ◌∷◌, ◌++◌, ◌≡◌, refl, ap, ◌∙◌, false, ltb,
  ◌==◌, bit_and, if◌then◌else◌, Bool-cases, inl, inr, length, length-append, append_assoc,
  take-append_length, drop-append_length, All, Result, ok, err, arith, ◌>>=◌,
}
use lighttpd_fuzz.Base.Bits.{bit_and_ones, bit_and_128, bit_or_power}
use lighttpd_fuzz.Base.Bytes.{Bytes, from_bytes, to_be, to_bytes, byte_string}
use lighttpd_fuzz.Base.Text.{Text, put}
use lighttpd_fuzz.Backend.FastCgi.Params.{
  fcgi_length, take_length, Param, take_param, truncated_params, params_loop, fcgi_params,
}

-- A length below 2 ^ 31 in one byte, or in four of which the first is above 128.
unfoldable pub length_bytes : ℕ → Bytes
length_bytes size = if ltb size 128 then size ∷ [] else to_be 4 (size + 2 ^ 31)

fcgi_length-length_bytes : (size : ℕ) → size < 2 ^ 31 → fcgi_length size ≡ ok (length_bytes size)
unfolding fcgi_length length_bytes byte_string to_bytes
fcgi_length-length_bytes size h = ground (arith, bit_or_power size 31 h)

top_clear : (b : ℕ) → b < 128 → bit_and b 0x80 ≡ 0
top_clear b h = bit_and_128 b (omega arith) ∙ omega arith

top_set : (b : ℕ) → b < 256 → 128 ≤ b → (bit_and b 0x80 == 0) ≡ false
top_set b h k = let e : bit_and b 0x80 ≡ 128 = bit_and_128 b h ∙ omega arith in ground arith

take_length_short : (b : ℕ) (rest : Bytes) → b < 128 → take_length (b ∷ rest) ≡ ok (b, rest)
unfolding take_length
take_length_short b rest h = rw (top_clear b h)

take_length_long :
    (b₁ b₂ b₃ b₄ : ℕ) (rest : Bytes)
    → b₁ < 256
    → 128 ≤ b₁
    → take_length (b₁ ∷ b₂ ∷ b₃ ∷ b₄ ∷ rest)
      ≡ ok (from_bytes (b₁ ∷ b₂ ∷ b₃ ∷ b₄ ∷ []) % 2 ^ 31, rest)
unfolding take_length
take_length_long b₁ b₂ b₃ b₄ rest h k = rw (top_set b₁ h k, bit_and_ones _ 31) (ground arith)

take_length-length_bytes :
    (size : ℕ) (rest : Bytes)
    → size < 2 ^ 31
    → take_length (length_bytes size ++ rest) ≡ ok (size, rest)
unfolding length_bytes
take_length-length_bytes size rest h = elim (Bool-cases (ltb size 128)) [
  | inl small ↦ rw small (take_length_short size rest (ground arith))
  | inr large ↦
      let n : ℕ = size + 2 ^ 31 in
      rw large (
        take_length_long (n / 256 / 256 / 256 % 256) (n / 256 / 256 % 256) (n / 256 % 256) (n % 256)
          rest (omega arith) (omega arith)
        ∙ ap (λ t. ok (t, rest)) (omega arith))
]

-- A parameter as a FastCGI client writes it.
unfoldable pub encode_param : Text × Bytes → Result Bytes
encode_param (name, value) = do
  name_length ← fcgi_length (length name)
  value_length ← fcgi_length (length value)
  ok (name_length ++ (value_length ++ (name ++ value)))

unfoldable pub encode_params : List (Text × Bytes) → Result Bytes
encode_params [] = ok []
encode_params (p ∷ ps) = do first ← encode_param p; rest ← encode_params ps; ok (first ++ rest)

-- The dictionary that the parameters make one after the other.
unfoldable pub put_all : List (Text × Bytes) → List (Text × Bytes) → List (Text × Bytes)
put_all [] result = result
put_all ((name, value) ∷ ps) result = put_all ps (put name value result)

abbrev pub IsShort : Text × Bytes → Type 0
IsShort (name, value) = (length name < 2 ^ 31) × (length value < 2 ^ 31)

abbrev param_bytes : Text → Bytes → Bytes
param_bytes name value =
    length_bytes (length name) ++ (length_bytes (length value) ++ (name ++ value))

length-length_bytes : (size : ℕ) → 1 ≤ length (length_bytes size)
unfolding length_bytes
length-length_bytes size = elim (Bool-cases (ltb size 128)) [
  | inl small ↦ rw small (omega arith)
  | inr large ↦ rw large (omega arith)
]

encode_param-param_bytes :
    (name : Text) (value : Bytes)
    → length name < 2 ^ 31
    → length value < 2 ^ 31
    → encode_param (name, value) ≡ ok (param_bytes name value)
unfolding encode_param
encode_param-param_bytes name value h k =
    rw (fcgi_length-length_bytes (length name) h, fcgi_length-length_bytes (length value) k)

length-param_bytes :
    (name : Text) (value content : Bytes)
    → suc (length content) ≤ length (param_bytes name value ++ content)
length-param_bytes name value content = omega (
  arith,
  length-append (param_bytes name value) content,
  length-append (length_bytes (length name)) (length_bytes (length value) ++ (name ++ value)),
  length-length_bytes (length name),
)

take_param-param_bytes :
    (name : Text) (value rest : Bytes)
    → length name < 2 ^ 31
    → length value < 2 ^ 31
    → take_param (param_bytes name value ++ rest)
      ≡ ok (record { name = name; value = value; rest = rest })
unfolding take_param
take_param-param_bytes name value rest h k =
    let fits : ltb (length (name ++ (value ++ rest))) (length name + length value) ≡ false =
      (let a = length-append name (value ++ rest) in
        let b = length-append value rest in ground arith) in
    rw (
      append_assoc (length_bytes (length name)) (length_bytes (length value) ++ (name ++ value))
          rest,
      append_assoc (length_bytes (length value)) (name ++ value) rest,
      append_assoc name value rest,
      take_length-length_bytes (length name)
          (length_bytes (length value) ++ (name ++ (value ++ rest))) h,
      take_length-length_bytes (length value) (name ++ (value ++ rest)) k,
      fits,
      take-append_length name (value ++ rest),
      drop-append_length name (value ++ rest),
      take-append_length value rest,
      drop-append_length value rest,
    )

take_param-nil : take_param [] ≡ err truncated_params
unfolding take_param take_length
take_param-nil = refl

params_loop-round :
    (fuel : ℕ) (content : Bytes) (p : Param) (result : List (Text × Bytes))
    → take_param content ≡ ok p
    → params_loop (suc fuel) content result ≡ params_loop fuel p.rest (put p.name p.value result)
unfolding params_loop
params_loop-round fuel [] p result e = cc (e, take_param-nil)
params_loop-round fuel (b ∷ bs) p result e = rw e

abbrev params_bytes : List (Text × Bytes) → Bytes
params_bytes [] = []
params_bytes ((name, value) ∷ ps) = param_bytes name value ++ params_bytes ps

encode_params-params_bytes :
    (ps : List (Text × Bytes)) → All IsShort ps → encode_params ps ≡ ok (params_bytes ps)
unfolding encode_params
encode_params-params_bytes [] h = refl
encode_params-params_bytes ((n, v) ∷ ps) ((h, k), hs) =
    rw (encode_param-param_bytes n v h k, encode_params-params_bytes ps hs)

params_loop-params_bytes :
    (fuel : ℕ) (ps result : List (Text × Bytes))
    → All IsShort ps
    → length (params_bytes ps) ≤ fuel
    → params_loop fuel (params_bytes ps) result ≡ ok (put_all ps result)
unfolding params_loop put_all
params_loop-params_bytes fuel [] result h f = refl
params_loop-params_bytes zero ((n, v) ∷ ps) result h f =
    absurd (omega (arith, length-param_bytes n v (params_bytes ps)))
params_loop-params_bytes (suc fuel) ((n, v) ∷ ps) result ((h, k), hs) f =
    params_loop-round fuel _ _ result (take_param-param_bytes n v (params_bytes ps) h k)
    ∙ params_loop-params_bytes fuel ps (put n v result) hs
        (omega (arith, length-param_bytes n v (params_bytes ps)))

-- Parameters whose names and values have fewer than 2 ^ 31 bytes are written with `fcgi_length`
-- without an exception, and `fcgi_params` reads what is written as the dictionary that they make.
pub fcgi_params-encode_params :
    (ps : List (Text × Bytes))
    → All IsShort ps
    → (content : Bytes) × (encode_params ps ≡ ok content)
      × (fcgi_params content ≡ ok (put_all ps []))
unfolding fcgi_params
fcgi_params-encode_params ps h = (
  params_bytes ps,
  encode_params-params_bytes ps h,
  params_loop-params_bytes (length (params_bytes ps)) ps [] h (omega arith),
)
