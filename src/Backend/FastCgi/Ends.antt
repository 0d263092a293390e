-- ===== src/Backend/FastCgi/Ends.antt =====
-- The loop of `handle_fastcgi` ends.
use lighttpd_fuzz.Base.{
  ℕ, zero, suc, ◌<◌, [], ◌∷◌, ◌≢◌, Bool, true, false, not, ◌||◌, ◌==◌, if◌then◌else◌, Option, none,
  some, Result, ok, err, diverged, value_error, raise_if, arith,
}
use lighttpd_fuzz.Base.Bytes.{Bytes}
use lighttpd_fuzz.Base.Text.{Text}
use lighttpd_fuzz.Backend.Modes.{Url, select_mode}
use lighttpd_fuzz.Backend.Plan.{response_plan}
use lighttpd_fuzz.Backend.Plan.Total.{response_plan-returns}
use lighttpd_fuzz.Backend.Socket.{Connection, Conn, continue, recv_exact, send_response, lift, pure}
use lighttpd_fuzz.Backend.Socket.Uses.{
  left, Uses, IsRaised, Uses-bind, Uses-lift, Uses-fewer, recv_exact-Uses, send_response-Uses,
}
use lighttpd_fuzz.Backend.Socket.Ends.{IsRaised-neq}
use lighttpd_fuzz.Backend.FastCgi.Params.{response_wire}
use lighttpd_fuzz.Backend.FastCgi.Requests.{
  Request, Requests, begin_request, params_record, body_record, find_request, pop_request,
}
use lighttpd_fuzz.Backend.FastCgi.Raised.{
  is_ok-IsRaised, refuse-IsRaised, response_wire-IsRaised, params_record-IsRaised,
  body_record-IsRaised, begin_request-IsRaised,
}
use lighttpd_fuzz.Backend.FastCgi.Handler.{
  Header, Record, read_header, recv_some, recv_record, fcgi_respond, begin_record,
  params_stream_record, stdin_record, end_of_body, request_record, begun_record, handle_record,
  handle_fastcgi_round, fastcgi_loop, handle_fastcgi,
}

recv_some-Uses : (size : ℕ) (c : Connection) → Uses 0 (left c) (recv_some size c)
unfolding recv_some
recv_some-Uses size c = choose (size == 0)
  where
    choose : (b : Bool) → Uses 0 (left c) ((if b then pure [] else recv_exact size) c)
    choose true = omega arith
    choose false = Uses-fewer size (left c) (recv_exact size c) (recv_exact-Uses size c)

fcgi_respond-Uses :
    (request_id : ℕ) (mode : Text) (received : Bytes) (keep : Bool) (c : Connection)
    → Uses 0 (left c) (fcgi_respond request_id mode received keep c)
unfolding fcgi_respond
fcgi_respond-Uses i mode received keep c =
    let plan = response_plan mode false received in
    Uses-bind 0 0 (lift plan) _ c
      (Uses-lift plan c (is_ok-IsRaised plan (response_plan-returns false received mode)))
      (λ response c.
        let wire = response_wire i response.content response.close_early in
        Uses-bind 0 0 (lift wire) _ c
          (Uses-lift wire c (response_wire-IsRaised i response.content response.close_early))
          (λ wire c.
            Uses-bind 0 0 (send_response wire response.short_writes) _ c
              (send_response-Uses wire response.short_writes c) (λ _ c. omega arith)))

read_header-IsRaised : (head : Bytes) → IsRaised (read_header head)
unfolding read_header
read_header-IsRaised (v ∷ t ∷ i₁ ∷ i₀ ∷ n₁ ∷ n₀ ∷ p ∷ rest) = tt
read_header-IsRaised _ = λ e. cc

check_header : Header → Result (Unit {0})
check_header h =
    raise_if (not (h.version == 1) || (h.header_id == 0)) (value_error "invalid FastCGI record")

recv_record-Uses : (c : Connection) → Uses 8 (left c) (recv_record c)
unfolding recv_record check_header
recv_record-Uses c = Uses-bind 8 0 (recv_exact 8) _ c (recv_exact-Uses 8 c) (λ head c.
    Uses-bind 0 0 (lift (read_header head)) _ c
      (Uses-lift (read_header head) c (read_header-IsRaised head))
      (λ h c.
        Uses-bind 0 0 (lift (check_header h)) _ c
          (Uses-lift (check_header h) c (refuse-IsRaised _ _))
          (λ _ c.
            Uses-bind 0 0 (recv_some h.content_length) _ c (recv_some-Uses h.content_length c)
              (λ content c.
                Uses-bind 0 0 (recv_some h.padding_length) _ c (recv_some-Uses h.padding_length c)
                  (λ _ c. omega arith)))))

module _ (parse : Text → Option Url) (max_request : ℕ) where
  stdin_record-Uses :
      (k : ℕ) (content : Bytes) (state : Request) (requests : Requests) (c : Connection)
      → Uses 0 (left c) (stdin_record parse max_request k content state requests c)
  unfolding stdin_record end_of_body
  stdin_record-Uses k [] state requests c =
      let mode = select_mode parse state.uri state.headers in
      Uses-bind 0 0 (fcgi_respond k mode state.received state.keeps) _ c
        (fcgi_respond-Uses k mode state.received state.keeps c) (λ close c. omega arith)
  stdin_record-Uses k (b ∷ bs) state requests c =
      let r = body_record max_request (b ∷ bs) state in
      Uses-bind 0 0 (lift r) _ c (Uses-lift r c (body_record-IsRaised max_request (b ∷ bs) state))
        (λ s c. omega arith)

  params_stream_record-Uses :
      (k : ℕ) (content : Bytes) (state : Request) (requests : Requests) (c : Connection)
      → Uses 0 (left c) (params_stream_record parse max_request k content state requests c)
  unfolding params_stream_record
  params_stream_record-Uses k content state requests c =
      let r = params_record max_request content state in
      Uses-bind 0 0 (lift r) _ c (Uses-lift r c (params_record-IsRaised max_request content state))
        (λ s c. omega arith)

  if-Uses :
      {A : Type 0} (b : Bool) (x y : Conn A) (c : Connection)
      → Uses 0 (left c) (x c)
      → Uses 0 (left c) (y c)
      → Uses 0 (left c) ((if b then x else y) c)
  if-Uses true x y c h k = h
  if-Uses false x y c h k = k

  begun_record-Uses :
      (r : Record) (requests : Requests) (found : Option Request) (c : Connection)
      → Uses 0 (left c) (begun_record parse max_request r requests found c)
  unfolding request_record
  begun_record-Uses r requests none c = λ e. cc
  begun_record-Uses r requests (some state) c =
      if-Uses (r.record_type == 4) _ _ c
        (params_stream_record-Uses r.request_id r.content state requests c)
        (if-Uses (r.record_type == 5) _ _ c
          (stdin_record-Uses r.request_id r.content state requests c)
          (if-Uses (r.record_type == 2) (pure (false, pop_request r.request_id requests))
            (pure (false, requests)) c (omega arith) (omega arith)))

  handle_record-Uses :
      (r : Record) (requests : Requests) (c : Connection)
      → Uses 0 (left c) (handle_record parse max_request r requests c)
  unfolding handle_record begin_record
  handle_record-Uses r requests c =
      let begun = begin_request r.request_id r.content requests in
      if-Uses (r.record_type == 1) _ _ c
        (Uses-bind 0 0 (lift begun) _ c
          (Uses-lift begun c (begin_request-IsRaised r.request_id r.content requests))
          (λ s c. omega arith))
        (begun_record-Uses r requests (find_request r.request_id requests) c)

  round-Uses :
      (requests : Requests) (c : Connection)
      → Uses 8 (left c) (handle_fastcgi_round parse max_request requests c)
  unfolding handle_fastcgi_round
  round-Uses requests c =
      Uses-bind 8 0 recv_record _ c (recv_record-Uses c) (λ r c. handle_record-Uses r requests c)

  after_round-IsRaised :
      (fuel before : ℕ) (out : Result (Bool × Requests) × Connection)
      → before < suc fuel
      → Uses 8 before out
      → ((requests : Requests) (c : Connection)
          → left c < fuel
          → IsRaised (fastcgi_loop parse max_request fuel requests c).0)
      → IsRaised
          (continue out.0
            (λ x. elim x.0 [ true ↦ pure true | false ↦ fastcgi_loop parse max_request fuel x.1 ])
            out.1).0
  after_round-IsRaised fuel before (err e, c) h u k = u
  after_round-IsRaised fuel before (ok (true, r), c) h u k = tt
  after_round-IsRaised fuel before (ok (false, r), c) h u k = k r c (omega arith)

  fastcgi_loop-IsRaised :
      (fuel : ℕ) (requests : Requests) (c : Connection)
      → left c < fuel
      → IsRaised (fastcgi_loop parse max_request fuel requests c).0
  unfolding fastcgi_loop
  fastcgi_loop-IsRaised zero requests c h = absurd (omega arith)
  fastcgi_loop-IsRaised (suc fuel) requests c h =
      after_round-IsRaised fuel (left c) (handle_fastcgi_round parse max_request requests c) h
        (round-Uses requests c) (fastcgi_loop-IsRaised fuel)

-- `handle_fastcgi` returns or raises an exception of Python: the fuel of its loop, and of the loops
-- within, is never used up.
pub handle_fastcgi-ends :
    (parse : Text → Option Url) (max_request : ℕ) (c : Connection)
    → (handle_fastcgi parse max_request c).0 ≢ err diverged
unfolding handle_fastcgi
handle_fastcgi-ends parse max_request c =
    IsRaised-neq _ (fastcgi_loop-IsRaised parse max_request (suc (left c)) [] c (omega arith))
