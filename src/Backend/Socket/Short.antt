-- ===== src/Backend/Socket/Short.antt =====
-- A stream that ends too early.
use lighttpd_fuzz.Base.{
  ℕ, zero, suc, ◌+◌, ◌-◌, ◌≤◌, ◌<◌, List, [], ◌∷◌, ◌++◌, ◌≡◌, refl, ◌∙◌, true, ltb, length,
  length-append, drop, take_all, err, eof_error, timeout_error, arith,
}
use lighttpd_fuzz.Base.Bytes.{Bytes}
use lighttpd_fuzz.Backend.Socket.{
  Arrival, chunk, pause, Connection, recv_from, recv, recv_exact_loop, recv_exact,
}
use lighttpd_fuzz.Backend.Socket.Stream.{stream, outcome, conn, loop_round}

drop_all : (n : ℕ) (xs : Bytes) → length xs ≤ n → drop n xs ≡ []
drop_all zero [] h = refl
drop_all zero (x ∷ xs) h = absurd (omega arith)
drop_all (suc n) [] h = refl
drop_all (suc n) (x ∷ xs) h = drop_all n xs (omega arith)

module _ (accepts : List ℕ) (sent : Bytes) where
  loop_ends :
      (fuel size : ℕ) (content : Bytes)
      → length content < size
      → recv_exact_loop (suc fuel) size content (conn accepts sent [])
        ≡ (err eof_error, conn accepts sent [])
  unfolding recv_exact_loop recv recv_from
  loop_ends fuel size content n =
      let missing : ltb (length content) size ≡ true = ground arith in rw missing

  loop_waits :
      (fuel size : ℕ) (content : Bytes) (rest : List Arrival)
      → length content < size
      → recv_exact_loop (suc fuel) size content (conn accepts sent (pause ∷ rest))
        ≡ (err timeout_error, conn accepts sent rest)
  unfolding recv_exact_loop recv recv_from
  loop_waits fuel size content rest n =
      let missing : ltb (length content) size ≡ true = ground arith in rw missing

  recv_exact_loop-short :
      (fuel size : ℕ) (content : Bytes) (incoming : List Arrival)
      → length content + length (stream incoming) < size
      → size ≤ length content + fuel
      → (rest : List Arrival) × (recv_exact_loop fuel size content (conn accepts sent incoming)
          ≡ (err (outcome incoming), conn accepts sent rest))
  recv_exact_loop-short zero size content incoming n f = absurd (omega arith)
  recv_exact_loop-short (suc fuel) size content [] n f =
      ([], loop_ends fuel size content (omega arith))
  recv_exact_loop-short (suc fuel) size content (pause ∷ rest) n f =
      (rest, loop_waits fuel size content rest (omega arith))
  recv_exact_loop-short (suc fuel) size content (chunk b bs ∷ r) n f =
      let m : ℕ = size - length content - 1 in
      let total : length (stream (chunk b bs ∷ r)) ≡ suc (length bs + length (stream r)) =
        omega (arith, length-append bs (stream r)) in
      let fits : length bs ≤ m = omega arith in
      let (rest, run) =
        recv_exact_loop-short fuel size (content ++ b ∷ bs) r
          (omega (arith, length-append content (b ∷ bs)))
          (omega (arith, length-append content (b ∷ bs))) in
      (
        rest,
        loop_round accepts sent fuel size m b bs content r (omega arith)
            ∙ rw (take_all m bs fits, drop_all m bs fits) run,
      )

-- If the stream is shorter than what is asked for, `recv_exact` raises what the stream ends with, the
-- end of the file or a timeout, and nothing is sent.
pub recv_exact-short :
    (size : ℕ) (c : Connection)
    → length (stream c.incoming) < size
    → (rest : List Arrival) × (recv_exact size c
        ≡ (err (outcome c.incoming), record c { incoming = rest }))
unfolding recv_exact
recv_exact-short size c n =
    recv_exact_loop-short c.accepts c.sent size size [] c.incoming (omega arith) (omega arith)
