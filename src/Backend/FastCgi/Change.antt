-- ===== src/Backend/FastCgi/Change.antt =====
-- How a record that `handle_fastcgi` handles changes the requests.
use lighttpd_fuzz.Base.{
  ℕ, ◌+◌, ◌≤◌, [], ◌∷◌, ◌++◌, ◌≡◌, refl, Bool, not, ltb, ◌==◌, ◌||◌, Bool-cases, inl, inr, length,
  length-append, Option, none, some, All, Result, ok, err, arith,
}
use lighttpd_fuzz.Base.{>>=-eq-ok}
use mathlib.Core.Path.{subst}
use lighttpd_fuzz.Base.Bytes.{Bytes}
use lighttpd_fuzz.Base.Text.{Text}
use lighttpd_fuzz.Backend.Modes.{Url, select_mode}
use lighttpd_fuzz.Backend.Socket.{Connection, Conn, continue}
use lighttpd_fuzz.Backend.FastCgi.Params.{fcgi_params}
use lighttpd_fuzz.Backend.FastCgi.Requests.{
  Request, Requests, find_request, pop_request, set_request, begin_request, is_some, new_request,
  params_record, body_record,
}
use lighttpd_fuzz.Backend.FastCgi.Handler.{
  Record, begin_record, params_stream_record, stdin_record, end_of_body, request_record,
  begun_record, handle_record, fcgi_respond,
}

-- Neither stream of a request is longer than the limit.
pub record IsBounded (max_request : ℕ) (state : Request) : Type 0 where
  pub params_fit : length state.params ≤ max_request
  pub body_fits : length state.received ≤ max_request

abbrev pub AreBounded : ℕ → Requests → Type 0
AreBounded max_request = All (λ entry. IsBounded max_request entry.1)

-- How the requests are after a record of request `k`.
pub data Change (max_request k : ℕ) (requests after : Requests) : Type 0 where
  sets :
      (state : Request)
      → after ≡ set_request k state requests
      → (AreBounded max_request requests → IsBounded max_request state)
      → Change max_request k requests after
  pops : after ≡ pop_request k requests → Change max_request k requests after
  same : after ≡ requests → Change max_request k requests after

continue-eq-ok :
    {A B : Type 0} (r : Result A) (f : A → Conn B) (c : Connection) {b : B} {c' : Connection}
    → continue r f c ≡ (ok b, c')
    → (a : A) × (r ≡ ok a) × (f a c ≡ (ok b, c'))
continue-eq-ok (ok a) f c h = (a, refl, h)
continue-eq-ok (err e) f c h = cc

ok_injective : {A : Type 0} {a b : A} → ok a ≡ ok b → a ≡ b
ok_injective e = cc

found-IsBounded :
    (max_request k : ℕ) (requests : Requests) {state : Request}
    → find_request k requests ≡ some state
    → AreBounded max_request requests
    → IsBounded max_request state
found-IsBounded m k [] e h = cc
found-IsBounded m k ((j, r) ∷ rest) {state} e (h, hs) = elim (Bool-cases (j == k)) [
  | inl here ↦ subst (IsBounded m) (cc (rw here at e)) h
  | inr later ↦ found-IsBounded m k rest (rw later at e) hs
]

params_record-IsBounded :
    (max_request : ℕ) (content : Bytes) (state : Request) {state' : Request}
    → params_record max_request content state ≡ ok state'
    → IsBounded max_request state
    → IsBounded max_request state'
unfolding params_record
params_record-IsBounded m [] state e h =
    let (ps, _, q) = >>=-eq-ok (fcgi_params state.params) _ e in
    subst (IsBounded m) (ok_injective q)
      (record { params_fit = h.params_fit; body_fits = h.body_fits })
params_record-IsBounded m (b ∷ bs) state e h =
    elim (Bool-cases (ltb m (length state.params + length (b ∷ bs)))) [
      | inl long ↦ cc (rw long at e)
      | inr fits ↦ subst (IsBounded m) (ok_injective (rw fits at e)) (record {
        params_fit = let a = length-append state.params (b ∷ bs) in ground arith;
        body_fits = h.body_fits;
      })
    ]

body_record-IsBounded :
    (max_request : ℕ) (content : Bytes) (state : Request) {state' : Request}
    → body_record max_request content state ≡ ok state'
    → IsBounded max_request state
    → IsBounded max_request state'
unfolding body_record
body_record-IsBounded m content state e h =
    elim (Bool-cases (ltb m (length state.received + length content))) [
      | inl long ↦ cc (rw long at e)
      | inr fits ↦
          let n : length (state.received ++ content) ≤ m =
            (let a = length-append state.received content in ground arith) in
          subst (IsBounded m) (ok_injective (rw fits at e))
            (record { params_fit = h.params_fit; body_fits = n })
    ]

begin_record-Change :
    (max_request : ℕ) (r : Record) (requests : Requests) (c : Connection) {done : Bool}
    {after : Requests} {c' : Connection}
    → begin_record r requests c ≡ (ok (done, after), c')
    → Change max_request r.request_id requests after
unfolding begin_record begin_request new_request
begin_record-Change m r requests c e =
    elim (Bool-cases
      (not (length r.content == 8) || is_some (find_request r.request_id requests))) [
        | inl refused ↦ cc (rw refused at e)
        | inr begun ↦
            sets (new_request r.content) (cc (rw begun at e))
              (λ h. record { params_fit = omega arith; body_fits = omega arith })
      ]

module _ (parse : Text → Option Url) (max_request : ℕ) where
  params_stream_record-Change :
      (k : ℕ) (content : Bytes) (state : Request) (requests : Requests) (c : Connection)
      {done : Bool} {after : Requests} {c' : Connection}
      → find_request k requests ≡ some state
      → params_stream_record parse max_request k content state requests c ≡ (ok (done, after), c')
      → Change max_request k requests after
  unfolding params_stream_record
  params_stream_record-Change k content state requests c found e =
      let (state', made, q) = continue-eq-ok (params_record max_request content state) _ c e in
      sets state' (cc) (λ h.
        params_record-IsBounded max_request content state made
          (found-IsBounded max_request k requests found h))

  stdin_record-Change :
      (k : ℕ) (content : Bytes) (state : Request) (requests : Requests) (c : Connection)
      {done : Bool} {after : Requests} {c' : Connection}
      → find_request k requests ≡ some state
      → stdin_record parse max_request k content state requests c ≡ (ok (done, after), c')
      → Change max_request k requests after
  unfolding stdin_record end_of_body
  stdin_record-Change k [] state requests c found e =
      let m =
        fcgi_respond k (select_mode parse state.uri state.headers) state.received state.keeps in
      let (close, made, q) = continue-eq-ok (m c).0 _ (m c).1 e in pops (cc)
  stdin_record-Change k (b ∷ bs) state requests c found e =
      let (state', made, q) = continue-eq-ok (body_record max_request (b ∷ bs) state) _ c e in
      sets state' (cc) (λ h.
        body_record-IsBounded max_request (b ∷ bs) state made
          (found-IsBounded max_request k requests found h))

  request_record-Change :
      (r : Record) (state : Request) (requests : Requests) (c : Connection) {done : Bool}
      {after : Requests} {c' : Connection}
      → find_request r.request_id requests ≡ some state
      → request_record parse max_request r state requests c ≡ (ok (done, after), c')
      → Change max_request r.request_id requests after
  unfolding request_record
  request_record-Change r state requests c found e = elim (Bool-cases (r.record_type == 4)) [
    | inl four ↦
        params_stream_record-Change r.request_id r.content state requests c found (rw four at e)
    | inr not_four ↦ elim (Bool-cases (r.record_type == 5)) [
      | inl five ↦
          stdin_record-Change r.request_id r.content state requests c found
            (rw (not_four, five) at e)
      | inr not_five ↦ elim (Bool-cases (r.record_type == 2)) [
        | inl two ↦ pops (cc (rw (not_four, not_five, two) at e))
        | inr other ↦ same (cc (rw (not_four, not_five, other) at e))
      ]
    ]
  ]

  begun_record-Change :
      (r : Record) (requests : Requests) (c : Connection) (found : Option Request) {done : Bool}
      {after : Requests} {c' : Connection}
      → find_request r.request_id requests ≡ found
      → begun_record parse max_request r requests found c ≡ (ok (done, after), c')
      → Change max_request r.request_id requests after
  begun_record-Change r requests c none f e = cc
  begun_record-Change r requests c (some state) f e = request_record-Change r state requests c f e

  pub handle_record-Change :
      (r : Record) (requests : Requests) (c : Connection) {done : Bool} {after : Requests}
      {c' : Connection}
      → handle_record parse max_request r requests c ≡ (ok (done, after), c')
      → Change max_request r.request_id requests after
  unfolding handle_record
  handle_record-Change r requests c e = elim (Bool-cases (r.record_type == 1)) [
    | inl begins ↦ begin_record-Change max_request r requests c (rw begins at e)
    | inr goes_on ↦
        begun_record-Change r requests c (find_request r.request_id requests) refl (rw goes_on at e)
  ]
