-- ===== src/Backend/FastCgi/Raised.antt =====
-- The functions of FastCGI that do not use the connection return or raise; no loop runs out of fuel.
use lighttpd_fuzz.Base.{
  String, ℕ, zero, suc, ◌+◌, ◌≤◌, List, [], ◌∷◌, ◌++◌, ◌≡◌, refl, ap, Bool, true, false, not, ◌||◌,
  ◌==◌, bit_and, ltb, if◌then◌else◌, length, length-drop, drop, Bool-cases, inl, inr, Result, ok,
  err, value_error, raise_if, ◌>>=◌, >>=-eq-ok, is_ok, arith,
}
use lighttpd_fuzz.Base.Bytes.{Bytes, byte_string, all_bytes}
use lighttpd_fuzz.Base.Text.{Text, put}
use lighttpd_fuzz.Backend.Socket.Uses.{IsRaised}
use lighttpd_fuzz.Backend.FastCgi.Params.{
  take_length, Param, take_param, params_loop, fcgi_params, truncated_params, fcgi_record,
  end_records, response_wire,
}
use lighttpd_fuzz.Backend.FastCgi.Requests.{
  Request, Requests, begin_request, params_record, body_record, find_request, is_some, set_request,
  new_request,
}

IsRaised-bind :
    {A B : Type 0} (r : Result A) (f : A → Result B)
    → IsRaised r
    → ((a : A) → IsRaised (f a))
    → IsRaised (r >>= f)
IsRaised-bind (ok a) f h k = k a
IsRaised-bind (err e) f h k = h

IsRaised-if :
    {A : Type 0} (b : Bool) (x y : Result A)
    → IsRaised x
    → IsRaised y
    → IsRaised (if b then x else y)
IsRaised-if true x y h k = h
IsRaised-if false x y h k = k

pub refuse-IsRaised : (b : Bool) (text : String) → IsRaised (raise_if b (value_error text))
refuse-IsRaised true text = λ e. cc
refuse-IsRaised false text = tt

refuse_or-IsRaised :
    {A : Type 0} (b : Bool) (text : String) (value : A)
    → IsRaised (raise_if b (value_error text) >>= λ _. ok value)
refuse_or-IsRaised true text value = λ e. cc
refuse_or-IsRaised false text value = tt

pub is_ok-IsRaised : {A : Type 0} (r : Result A) → is_ok r ≡ true → IsRaised r
is_ok-IsRaised (ok a) h = tt
is_ok-IsRaised (err e) h = cc

byte_string-IsRaised : (bs : Bytes) → IsRaised (byte_string bs)
unfolding byte_string
byte_string-IsRaised bs = IsRaised-if (all_bytes bs) _ _ tt (λ e. cc)

fcgi_record-IsRaised :
    (record_type request_id : ℕ) (content : Bytes)
    → IsRaised (fcgi_record record_type request_id content)
unfolding fcgi_record
fcgi_record-IsRaised t i content =
    IsRaised-bind _ _ (refuse-IsRaised _ _)
      (λ _. IsRaised-bind _ _ (byte_string-IsRaised _) (λ head. tt))

pub response_wire-IsRaised :
    (request_id : ℕ) (content : Bytes) (close_early : Bool)
    → IsRaised (response_wire request_id content close_early)
unfolding response_wire end_records
response_wire-IsRaised i content close_early =
    IsRaised-bind _ _ (fcgi_record-IsRaised 6 i content) (λ output.
      IsRaised-bind _ _
        (IsRaised-if close_early _ _ tt (
          IsRaised-bind _ _ (fcgi_record-IsRaised 6 i [])
            (λ a. IsRaised-bind _ _ (fcgi_record-IsRaised 3 i _) (λ b. tt))))
        (λ ends. tt))

take_length-IsRaised : (content : Bytes) → IsRaised (take_length content)
unfolding take_length
take_length-IsRaised [] = λ e. cc
take_length-IsRaised (b ∷ bs) =
    IsRaised-if (bit_and b 0x80 == 0) _ _ tt
      (IsRaised-if (ltb (length (b ∷ bs)) 4) _ _ (λ e. cc) tt)

take_length-shorter :
    (content : Bytes) {size : ℕ} {rest : Bytes}
    → take_length content ≡ ok (size, rest)
    → suc (length rest) ≤ length content
unfolding take_length
take_length-shorter [] e = cc
take_length-shorter (b ∷ bs) {size} {rest} e = elim (Bool-cases (bit_and b 0x80 == 0)) [
  | inl short ↦
      let same : bs ≡ rest = cc (rw short at e) in omega (arith, ap (λ (t : Bytes). length t) same)
  | inr long ↦ elim (Bool-cases (ltb (length (b ∷ bs)) 4)) [
    | inl cut ↦ cc (rw (long, cut) at e)
    | inr fits ↦
        let same : drop 3 bs ≡ rest = cc (rw (long, fits) at e) in
        omega (arith, ap (λ (t : Bytes). length t) same, length-drop 3 bs)
  ]
]

take_param-IsRaised : (content : Bytes) → IsRaised (take_param content)
unfolding take_param
take_param-IsRaised content = IsRaised-bind _ _ (take_length-IsRaised content) (λ a.
    IsRaised-bind _ _ (take_length-IsRaised a.1)
      (λ b. IsRaised-bind _ _ (refuse-IsRaised (ltb (length b.1) (a.0 + b.0)) _) (λ _. tt)))

take_param-shorter :
    (content : Bytes) {p : Param} → take_param content ≡ ok p → suc (length p.rest) ≤ length content
unfolding take_param
take_param-shorter content {p} e =
    let (a, first, e₁) = >>=-eq-ok (take_length content) _ e in
    let (b, second, e₂) = >>=-eq-ok (take_length a.1) _ e₁ in
    let (u, third, e₃) =
      >>=-eq-ok (raise_if (ltb (length b.1) (a.0 + b.0)) truncated_params) _ e₂ in
    let same : drop b.0 (drop a.0 b.1) ≡ p.rest = cc (e₃) in
    omega (
      arith,
      take_length-shorter content first,
      take_length-shorter a.1 second,
      ap (λ (t : Bytes). length t) same,
      length-drop b.0 (drop a.0 b.1),
      length-drop a.0 b.1,
    )

params_loop-next :
    (fuel : ℕ) (next : Result Param) (result : List (Text × Bytes))
    → IsRaised next
    → ((p : Param) → next ≡ ok p → IsRaised (params_loop fuel p.rest (put p.name p.value result)))
    → IsRaised (next >>= λ p. params_loop fuel p.rest (put p.name p.value result))
params_loop-next fuel (ok p) result h k = k p refl
params_loop-next fuel (err e) result h k = h

params_loop-IsRaised :
    (fuel : ℕ) (content : Bytes) (result : List (Text × Bytes))
    → length content ≤ fuel
    → IsRaised (params_loop fuel content result)
unfolding params_loop
params_loop-IsRaised fuel [] result h = tt
params_loop-IsRaised zero (b ∷ bs) result h = absurd (omega arith)
params_loop-IsRaised (suc fuel) (b ∷ bs) result h =
    params_loop-next fuel (take_param (b ∷ bs)) result (take_param-IsRaised (b ∷ bs)) (λ p e.
      params_loop-IsRaised fuel p.rest (put p.name p.value result)
        (omega (arith, take_param-shorter (b ∷ bs) e)))

pub params_record-IsRaised :
    (max_request : ℕ) (content : Bytes) (state : Request)
    → IsRaised (params_record max_request content state)
unfolding params_record fcgi_params
params_record-IsRaised m [] state =
    IsRaised-bind _ _ (params_loop-IsRaised (length state.params) state.params [] (omega arith))
      (λ p. tt)
params_record-IsRaised m (b ∷ bs) state =
    refuse_or-IsRaised (ltb m (length state.params + length (b ∷ bs))) "FastCGI params too large"
      (record state { params = state.params ++ b ∷ bs })

pub body_record-IsRaised :
    (max_request : ℕ) (content : Bytes) (state : Request)
    → IsRaised (body_record max_request content state)
unfolding body_record
body_record-IsRaised m content state =
    refuse_or-IsRaised (ltb m (length state.received + length content)) "FastCGI body too large"
      (record state { received = state.received ++ content })

pub begin_request-IsRaised :
    (request_id : ℕ) (content : Bytes) (requests : Requests)
    → IsRaised (begin_request request_id content requests)
unfolding begin_request
begin_request-IsRaised k content requests =
    refuse_or-IsRaised (not (length content == 8) || is_some (find_request k requests))
      "invalid FastCGI begin request" (set_request k (new_request content) requests)
