-- ===== src/Backend/Http/Answers.antt =====
-- A request of HTTP is answered.
use lighttpd_fuzz.Base.{
  ℕ, zero, suc, ◌+◌, ◌-◌, ◌≤◌, List, [], ◌∷◌, ◌++◌, ◌≡◌, refl, sym, ap, ◌∙◌, Bool, true, false,
  ◌||◌, ltb, Bool-cases, inl, inr, if◌then◌else◌, length, length-append, append-nil, take, drop,
  take_all, All, ok, Option, arith,
}
use lighttpd_fuzz.Base.Bytes.{Bytes, codes}
use lighttpd_fuzz.Base.Text.{Text, get}
use lighttpd_fuzz.Base.Text.Int.{int}
use lighttpd_fuzz.Backend.Body.{bad_length}
use lighttpd_fuzz.Backend.Modes.{Url, select_mode, get_default}
use lighttpd_fuzz.Backend.Plan.{Response, response_plan, max_headers}
use lighttpd_fuzz.Backend.Socket.{Arrival, chunk, pause, Connection, recv, recv_from, pure}
use lighttpd_fuzz.Backend.Socket.Stream.{stream, recv_exact-stream}
use lighttpd_fuzz.Backend.Socket.Sent.{send_response-sends}
use lighttpd_fuzz.Backend.Http.{int_or_zero, echo_loop, echo, recv_body, http_respond, handle_http}
use lighttpd_fuzz.Backend.Http.Request.{
  IsRequest, IsHeader, head_bytes, put_fields, split_at-head_bytes, parse_http_headers-head_bytes,
}
use lighttpd_fuzz.Backend.Http.Headers.{recv_headers-HeadRead}

drop_all : (n : ℕ) (xs : Bytes) → length xs ≤ n → drop n xs ≡ []
drop_all zero [] h = refl
drop_all zero (x ∷ xs) h = absurd (omega arith)
drop_all (suc n) [] h = refl
drop_all (suc n) (x ∷ xs) h = drop_all n xs (omega arith)

-- Into a tunnel through which nothing comes nothing is sent.
echo-silent :
    (remaining : ℕ) (c : Connection)
    → stream c.incoming ≡ []
    → (rest : List Arrival) × (echo remaining c ≡ (ok tt, record c { incoming = rest }))
unfolding echo
echo-silent zero c e = (c.incoming, unfold echo_loop in refl)
echo-silent (suc remaining) c e = by_arrivals c.incoming e
  where
    by_arrivals :
        (arrivals : List Arrival)
        → stream arrivals ≡ []
        → (rest : List Arrival) × (echo (suc remaining) (record c { incoming = arrivals })
            ≡ (ok tt, record c { incoming = rest }))
    by_arrivals [] e = ([], unfold echo_loop recv recv_from in refl)
    by_arrivals (pause ∷ rest) e = (rest, unfold echo_loop recv recv_from in refl)
    by_arrivals (chunk b bs ∷ rest) e = cc

module _ (parse : Text → Option Url) (max_request : ℕ) where
  -- The body is what was received behind the head, and what follows it.
  recv_body-whole :
      (extra received : Bytes) (c : Connection)
      → extra ++ stream c.incoming ≡ received
      → (rest : List Arrival) × (recv_body parse max_request extra (length received) c
          ≡ (ok received, record c { incoming = rest }))
        × (stream rest ≡ [])
  unfolding recv_body
  recv_body-whole extra received c e =
      let sum : length extra + length (stream c.incoming) ≡ length received =
        sym (length-append extra (stream c.incoming)) ∙ ap (λ (t : Bytes). length t) e in
      let kept : take (length received) extra ≡ extra =
        take_all (length received) extra (omega (arith, sum)) in
      elim (Bool-cases (ltb (length extra) (length received))) [
        | inl short ↦
            let (rest, run, l) =
              recv_exact-stream (stream c.incoming) [] c (sym (append-nil (stream c.incoming))) in
            let missing : length received - length extra ≡ length (stream c.incoming) =
              omega (arith, sum) in
            (rest, rw (kept, short, missing, run, e) refl, l.streams)
        | inr long ↦
            let nothing : stream c.incoming ≡ [] =
              no_length (stream c.incoming) (ground (arith, sum)) in
            let all : extra ≡ received =
              sym (append-nil extra) ∙ ap (λ t. extra ++ t) (sym nothing) ∙ e in
            (c.incoming, rw (kept, long, all) refl, nothing)
      ]
    where
      no_length : (xs : Bytes) → length xs ≡ 0 → xs ≡ []
      no_length [] e = refl
      no_length (x ∷ xs) e = absurd (omega arith)

  http_respond-sends :
      (uri : Bytes) (headers : List (Text × Bytes)) (response : Response) (c : Connection)
      → response_plan (select_mode parse uri headers) true [] ≡ ok response
      → All (λ n. 1 ≤ n) c.accepts
      → stream c.incoming ≡ []
      → (rest : List Arrival) × (accepts : List ℕ) × (http_respond parse max_request uri headers []
            c
          ≡ (
            ok (response.close_early || response.upgrade),
            record c { incoming = rest; accepts = accepts; sent = c.sent ++ response.content },
          ))
  unfolding http_respond
  http_respond-sends uri headers response c planned takes e =
      let (accepts, sends) = send_response-sends response.content response.short_writes c takes in
      let (rest, run) =
        tunnel response.upgrade (record c { accepts = accepts; sent = c.sent ++ response.content })
          e in
      (rest, accepts, rw (planned, sends, run) refl)
    where
      tunnel :
          (upgrade : Bool) (c : Connection)
          → stream c.incoming ≡ []
          → (rest : List Arrival) × ((if upgrade then echo (max_request - 0) else pure tt) c
              ≡ (ok tt, record c { incoming = rest }))
      tunnel true c e = echo-silent (max_request - 0) c e
      tunnel false c e = (c.incoming, refl)

  -- A request whose head, written in lines, has at most `_MAX_HEADERS + 1` bytes, with a body of the length
  -- that Content-Length says and `max_request` allows and nothing behind it, is read to its end however the
  -- connection cuts it, and answered, if every `send` takes a byte at least, with the response of the mode
  -- that its URI and its headers select, and nothing else; the connection is to be closed exactly if the
  -- response closes early or was an upgrade.
  pub handle_http-answers :
      (method uri version : Bytes) (fields : List (Text × Bytes)) (received : Bytes)
      (response : Response) (c : Connection)
      → IsRequest method uri version
      → All IsHeader fields
      → length (head_bytes method uri version fields) ≤ max_headers + 1
      → int_or_zero
          (int (get_default (get (codes "content-length") (put_fields fields [])) (codes "0")))
        ≡ (false, length received)
      → length received ≤ max_request
      → response_plan (select_mode parse uri (put_fields fields [])) true [] ≡ ok response
      → All (λ n. 1 ≤ n) c.accepts
      → stream c.incoming ≡ head_bytes method uri version fields ++ received
      → (rest : List Arrival) × (accepts : List ℕ) × (handle_http parse max_request c ≡ (
        ok (response.close_early || response.upgrade),
        record c { incoming = rest; accepts = accepts; sent = c.sent ++ response.content },
      ))
  unfolding handle_http bad_length
  handle_http-answers method uri version fields received response c request headers fits size small
        planned takes e =
      let h =
        recv_headers-HeadRead c.accepts c.sent (head_bytes method uri version fields) _ received
          (split_at-head_bytes method uri version fields request headers) fits c.incoming e in
      let (rest₁, run₁, empty₁) =
        recv_body-whole h.extra received (record c { incoming = h.rest }) h.behind in
      let none_left : drop (length received) h.extra ≡ [] = drop_all (length received) h.extra (
        omega (
          arith,
          sym (length-append h.extra (stream h.rest)) ∙ ap (λ (t : Bytes). length t) h.behind,
        )) in
      let (rest₂, accepts, run₂) =
        http_respond-sends uri (put_fields fields []) response (record c { incoming = rest₁ })
          planned takes empty₁ in
      let allowed : ltb max_request (length received) ≡ false = ground arith in
      (
        rest₂,
        accepts,
        rw
            (
              h.runs,
              parse_http_headers-head_bytes method uri version fields request headers,
              size,
              allowed,
              run₁,
              none_left,
              run₂,
            )
            refl,
      )
