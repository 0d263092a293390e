-- ===== src/Backend/FastCgi/Params.antt =====
-- `_fcgi_length`, `_fcgi_params` and `fcgi_record` of backend-responder.py.
use lighttpd_fuzz.Base.{
  ℕ, zero, suc, ◌+◌, ◌/◌, ◌^◌, List, [], ◌∷◌, ◌++◌, Bool, ltb, ◌==◌, bit_and, bit_or, if◌then◌else◌,
  length, take, drop, Result, ok, err, Error, value_error, diverged, raise_if, ◌>>=◌, ◌>>◌,
  replicate,
}
use lighttpd_fuzz.Base.Bytes.{Bytes, from_bytes, to_bytes, byte_string}
use lighttpd_fuzz.Base.Text.{Text, put}

unfoldable pub fcgi_length : ℕ → Result Bytes
fcgi_length size =
    if ltb size 128 then byte_string (size ∷ []) else to_bytes (bit_or size 0x80000000) 4

abbrev pub truncated_params : Error
truncated_params = value_error "truncated FastCGI params"

-- `take_length`, over `data[offset:]`.
unfoldable pub take_length : Bytes → Result (ℕ × Bytes)
take_length [] = err truncated_params
take_length (b ∷ rest) =
    if bit_and b 0x80 == 0
    then ok (b, rest)
    else if ltb (length (b ∷ rest)) 4
    then err truncated_params
    else ok (bit_and (from_bytes (take 4 (b ∷ rest))) 0x7fffffff, drop 4 (b ∷ rest))

-- What one round of the loop of `_fcgi_params` finds: a name, its value and the data behind them.
pub record Param : Type 0 where
  pub name : Text
  pub value : Bytes
  pub rest : Bytes

unfoldable pub take_param : Bytes → Result Param
take_param content = do
  (name_length, content') ← take_length content
  (value_length, content'') ← take_length content'
  raise_if (ltb (length content'') (name_length + value_length)) truncated_params
  ok (record {
    name = take name_length content'';
    value = take value_length (drop name_length content'');
    rest = drop value_length (drop name_length content'');
  })

-- The loop over `data[offset:]`; a round takes two bytes at least, so `len(data)` rounds are enough.
unfoldable pub params_loop : ℕ → Bytes → List (Text × Bytes) → Result (List (Text × Bytes))
params_loop fuel [] result = ok result
params_loop zero (b ∷ bs) result = err diverged
params_loop (suc fuel) (b ∷ bs) result = do
  p ← take_param (b ∷ bs)
  params_loop fuel p.rest (put p.name p.value result)

unfoldable pub fcgi_params : Bytes → Result (List (Text × Bytes))
fcgi_params content = params_loop (length content) content []

unfoldable pub fcgi_record : ℕ → ℕ → Bytes → Result Bytes
fcgi_record record_type request_id content = do
  raise_if (ltb 0xffff (length content)) (value_error "FastCGI record too large")
  head ← byte_string (
      1
      ∷ record_type
      ∷ request_id / 2 ^ 8
      ∷ bit_and request_id 0xff
      ∷ length content / 2 ^ 8
      ∷ bit_and (length content) 0xff
      ∷ 0
      ∷ 0
      ∷ [])
  ok (head ++ content)

-- The end of the output and the end of the request.
unfoldable pub end_records : ℕ → Result Bytes
end_records request_id = do
  end_of_output ← fcgi_record 6 request_id []
  end_of_request ← fcgi_record 3 request_id (replicate 8 0)
  ok (end_of_output ++ end_of_request)

-- `wire` of `_fcgi_respond`: the response, and unless the connection is closed early the ends.
unfoldable pub response_wire : ℕ → Bytes → Bool → Result Bytes
response_wire request_id content close_early = do
  output ← fcgi_record 6 request_id content
  ends ← if close_early then ok [] else end_records request_id
  ok (output ++ ends)
