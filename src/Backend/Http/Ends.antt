-- ===== src/Backend/Http/Ends.antt =====
-- The loops of `handle_http` end.
use lighttpd_fuzz.Base.{
  ℕ, zero, suc, ◌+◌, ◌-◌, ◌≤◌, List, [], ◌∷◌, ◌++◌, ◌≡◌, ◌≢◌, true, false, not, ◌||◌, ltb, leb,
  is_empty, Bool-cases, inl, inr, if◌then◌else◌, length, length-append, drop, take, Option, none,
  some, Result, ok, err, value_error, timeout_error, diverged, raise_if, arith,
}
use lighttpd_fuzz.Base.Bytes.{Bytes, codes}
use lighttpd_fuzz.Base.Text.{Text, get, starts_with}
use lighttpd_fuzz.Base.Text.Int.{int}
use lighttpd_fuzz.Backend.Body.{bad_length}
use lighttpd_fuzz.Backend.Modes.{Url, select_mode, get_default}
use lighttpd_fuzz.Backend.Plan.{response_plan, max_headers}
use lighttpd_fuzz.Backend.Plan.Total.{response_plan-returns}
use lighttpd_fuzz.Backend.Socket.{
  Connection, ◌>>=◌, recv, recv_exact, block_or_eof, send_response, lift, pure,
}
use lighttpd_fuzz.Backend.Socket.Uses.{IsRaised}
use lighttpd_fuzz.Backend.Socket.Ends.{
  Ends, Ends-bind, Ends-lift, Ends-if, recv_exact-Ends, send_response-Ends, recv-Ends, IsRaised-neq,
}
use lighttpd_fuzz.Backend.FastCgi.Raised.{is_ok-IsRaised, refuse-IsRaised}
use lighttpd_fuzz.Backend.Http.{
  split_at, end_of_headers, recv_headers_loop, recv_headers, valid_uri, with_headers, int_or_zero,
  request_parts, parse_request, parse_http_headers, echo_loop, echo, timeout_is_end, recv_body,
  http_respond, handle_http,
}

split_round :
    (fuel : ℕ) (content : Bytes) (found : Option (Bytes × Bytes))
    → Ends (recv_headers_loop fuel content)
    → Ends (elim found [
      | some (head, extra) ↦ pure (head ++ end_of_headers, extra)
      | none ↦ recv_headers_loop fuel content
    ])
split_round fuel content none h = h
split_round fuel content (some (head, extra)) h = λ c. tt

-- The rest of a round, for the block that it receives.
after_block :
    (fuel : ℕ) (content block : Bytes)
    → ((b : ℕ) (bs : Bytes) → Ends (recv_headers_loop fuel (content ++ b ∷ bs)))
    → Ends (
        block_or_eof block >>= λ _. elim (split_at end_of_headers [] (content ++ block)) [
          | some (head, extra) ↦ pure (head ++ end_of_headers, extra)
          | none ↦ recv_headers_loop fuel (content ++ block)
        ])
after_block fuel content [] h = λ c e. cc
after_block fuel content (b ∷ bs) h =
    split_round fuel (content ++ b ∷ bs) (split_at end_of_headers [] (content ++ b ∷ bs)) (h b bs)

recv_headers_loop-Ends :
    (fuel : ℕ) (content : Bytes)
    → max_headers + 1 ≤ length content + fuel
    → Ends (recv_headers_loop fuel content)
unfolding recv_headers_loop
recv_headers_loop-Ends zero content h =
    let long : leb (length content) max_headers ≡ false = ground arith in rw long (λ c e. cc)
recv_headers_loop-Ends (suc fuel) content h =
    Ends-if (ltb max_headers (length content)) _ _ (λ c e. cc)
      (Ends-bind (recv _) _ (recv-Ends _) (λ block. after_block fuel content block (λ b bs.
        recv_headers_loop-Ends fuel (content ++ b ∷ bs)
          (omega (arith, length-append content (b ∷ bs))))))

after_echo :
    (fuel remaining : ℕ) (block : Bytes)
    → ((b : ℕ) (bs : Bytes) → Ends (echo_loop fuel (suc remaining - length (b ∷ bs))))
    → Ends (
        if is_empty block
        then pure tt
        else (send_response block false >>= λ _. echo_loop fuel (suc remaining - length block)))
after_echo fuel remaining [] h = λ c. tt
after_echo fuel remaining (b ∷ bs) h =
    Ends-bind (send_response (b ∷ bs) false) _ (send_response-Ends (b ∷ bs) false) (λ _. h b bs)

echo_loop-Ends : (fuel remaining : ℕ) → remaining ≤ fuel → Ends (echo_loop fuel remaining)
unfolding echo_loop
echo_loop-Ends fuel zero h = λ c. tt
echo_loop-Ends zero (suc remaining) h = absurd (omega arith)
echo_loop-Ends (suc fuel) (suc remaining) h = Ends-bind (recv _) _ (recv-Ends _) (λ block.
    after_echo fuel remaining block
      (λ b bs. echo_loop-Ends fuel (suc remaining - length (b ∷ bs)) (omega arith)))

timeout_is_end-IsRaised : (r : Result (Unit {0})) → IsRaised r → IsRaised (timeout_is_end r)
timeout_is_end-IsRaised (ok u) h = tt
timeout_is_end-IsRaised (err timeout_error) h = tt
timeout_is_end-IsRaised (err (value_error text)) h = h
timeout_is_end-IsRaised (err _) h = h

echo-Ends : (remaining : ℕ) → Ends (echo remaining)
unfolding echo
echo-Ends remaining c =
    timeout_is_end-IsRaised (echo_loop remaining remaining c).0
      (echo_loop-Ends remaining remaining (omega arith) c)

valid_uri-IsRaised : (parts : Option (Bytes × (Bytes × Bytes))) → IsRaised (valid_uri parts)
valid_uri-IsRaised none = λ e. cc
valid_uri-IsRaised (some (method, (uri, version))) =
    elim (Bool-cases
      (is_empty method || (is_empty uri || not (starts_with version (codes "HTTP/"))))) [
        | inl bad ↦ rw bad (λ e. cc)
        | inr good ↦ rw good tt
      ]

with_headers-IsRaised :
    (lines : List Bytes) (uri : Result Bytes) → IsRaised uri → IsRaised (with_headers lines uri)
with_headers-IsRaised lines (ok uri) h = tt
with_headers-IsRaised lines (err e) h = h

parse_request-IsRaised : (lines : List Bytes) → IsRaised (parse_request lines)
parse_request-IsRaised [] = λ e. cc
parse_request-IsRaised (line ∷ lines) =
    with_headers-IsRaised lines (valid_uri (request_parts line))
      (valid_uri-IsRaised (request_parts line))

parse_http_headers-IsRaised : (content : Bytes) → IsRaised (parse_http_headers content)
unfolding parse_http_headers
parse_http_headers-IsRaised content = parse_request-IsRaised _

module _ (parse : Text → Option Url) (max_request : ℕ) where
  recv_body-Ends : (extra : Bytes) (size : ℕ) → Ends (recv_body parse max_request extra size)
  unfolding recv_body
  recv_body-Ends extra size =
      Ends-if (ltb (length (take size extra)) size) _ _
        (Ends-bind (recv_exact _) _ (recv_exact-Ends _) (λ rest c. tt)) (λ c. tt)

  http_respond-Ends :
      (uri : Bytes) (headers : List (Text × Bytes)) (tunnel : Bytes)
      → Ends (http_respond parse max_request uri headers tunnel)
  unfolding http_respond
  http_respond-Ends uri headers tunnel =
      let mode : Text = select_mode parse uri headers in
      let plan = response_plan mode true tunnel in
      Ends-bind (lift plan) _
        (Ends-lift plan (is_ok-IsRaised plan (response_plan-returns true tunnel mode)))
        (λ response.
          Ends-bind (send_response response.content response.short_writes) _
            (send_response-Ends response.content response.short_writes)
            (λ _.
              Ends-bind (if response.upgrade then echo (max_request - length tunnel) else pure tt) _
                (Ends-if response.upgrade _ _ (echo-Ends (max_request - length tunnel)) (λ c. tt))
                (λ _ c. tt)))

  -- `handle_http` returns or raises an exception of Python: the fuel of its loops is never used up.
  pub handle_http-ends : (c : Connection) → (handle_http parse max_request c).0 ≢ err diverged
  unfolding handle_http recv_headers
  handle_http-ends c = IsRaised-neq _ (handle_http-Ends c)
    where
      handle_http-Ends : Ends (handle_http parse max_request)
      handle_http-Ends =
          Ends-bind recv_headers _ (recv_headers_loop-Ends (max_headers + 1) [] (omega arith))
            (λ (head, extra).
              Ends-bind (lift (parse_http_headers head)) _
                (Ends-lift (parse_http_headers head) (parse_http_headers-IsRaised head))
                (λ (uri, headers).
                  let size =
                    int_or_zero
                      (int (get_default (get (codes "content-length") headers) (codes "0"))) in
                  let test =
                    raise_if (bad_length max_request size) (value_error "invalid content length") in
                  Ends-bind (lift test) _
                    (Ends-lift test
                      (refuse-IsRaised (bad_length max_request size) "invalid content length"))
                    (λ _.
                      Ends-bind (recv_body parse max_request extra size.1) _
                        (recv_body-Ends extra size.1)
                        (λ received. http_respond-Ends uri headers (drop size.1 extra)))))
