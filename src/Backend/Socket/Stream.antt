-- ===== src/Backend/Socket/Stream.antt =====
-- What the peer sends as one stream, however it is cut into pieces.
use lighttpd_fuzz.Base.{
  ℕ, zero, suc, ◌+◌, ◌-◌, ◌≤◌, List, [], ◌∷◌, ◌++◌, ◌≡◌, refl, sym, ap, ◌∙◌, true, false, ltb,
  length, length-append, append_assoc, append-nil, take, drop, ok, Error, eof_error, timeout_error,
  arith,
}
use lighttpd_fuzz.Base.Bytes.{Bytes}
use lighttpd_fuzz.Backend.Socket.{
  Arrival, chunk, pause, Connection, push, recv, recv_exact_loop, recv_exact,
}

-- The bytes that arrive before the peer pauses or closes.
abbrev pub stream : List Arrival → Bytes
stream [] = []
stream (pause ∷ rest) = []
stream (chunk b bs ∷ rest) = (b ∷ bs) ++ stream rest

-- What a handler that wants more than the stream runs into.
abbrev pub outcome : List Arrival → Error
outcome [] = eof_error
outcome (pause ∷ rest) = timeout_error
outcome (chunk b bs ∷ rest) = outcome rest

pub stream-push : (bs : Bytes) (rest : List Arrival) → stream (push bs rest) ≡ bs ++ stream rest
stream-push [] rest = refl
stream-push (b ∷ bs) rest = refl

pub outcome-push : (bs : Bytes) (rest : List Arrival) → outcome (push bs rest) ≡ outcome rest
outcome-push [] rest = refl
outcome-push (b ∷ bs) rest = refl

-- A first piece `xs` of a stream that begins with `want` holds all of `want` or a beginning of it.
pub split_want :
    (xs s want later : Bytes)
    → xs ++ s ≡ want ++ later
    → (left : Bytes) × (want ≡ take (length want) xs ++ left)
      × (drop (length want) xs ++ s ≡ left ++ later)
split_want xs s [] later e = ([], refl, e)
split_want [] s (w ∷ want) later e = (w ∷ want, refl, e)
split_want (x ∷ xs) s (w ∷ want) later e =
    let (left, a, b) = split_want xs s want later (cc) in (left, cc (a), b)

-- `rest` holds `later`, and ends as `incoming` does.
pub record Leaves (incoming rest : List Arrival) (later : Bytes) : Type 0 where
  pub streams : stream rest ≡ later
  pub ends : outcome rest ≡ outcome incoming

-- The loop stops when nothing is missing, and otherwise asks for what is missing.
pub loop_stops :
    (fuel size : ℕ) (content : Bytes) (c : Connection)
    → length content ≡ size
    → recv_exact_loop fuel size content c ≡ (ok content, c)
unfolding recv_exact_loop
loop_stops zero size content c n = ground arith
loop_stops (suc fuel) size content c n =
    let full : ltb (length content) size ≡ false = ground arith in rw full

module _ (accepts : List ℕ) (sent : Bytes) where
  abbrev pub conn : List Arrival → Connection
  conn incoming = record { incoming = incoming; accepts = accepts; sent = sent }

  pub loop_round :
      (fuel size m b : ℕ) (bs content : Bytes) (rest : List Arrival)
      → length content + suc m ≡ size
      → recv_exact_loop (suc fuel) size content (conn (chunk b bs ∷ rest))
        ≡ recv_exact_loop fuel size (content ++ b ∷ take m bs) (conn (push (drop m bs) rest))
  unfolding recv_exact_loop recv
  loop_round fuel size m b bs content rest n =
      let missing : ltb (length content) size ≡ true = ground arith in
      let asked : size - length content ≡ suc m = omega arith in rw (missing, asked)

  recv_exact_loop-stream :
      (fuel size : ℕ) (content want later : Bytes) (incoming : List Arrival)
      → length content + length want ≡ size
      → length want ≤ fuel
      → stream incoming ≡ want ++ later
      → (rest : List Arrival) × (recv_exact_loop fuel size content (conn incoming)
          ≡ (ok (content ++ want), conn rest))
        × Leaves incoming rest later
  recv_exact_loop-stream fuel size content [] later incoming n f e = (
    incoming,
    loop_stops fuel size content (conn incoming) (omega arith) ∙ rw append-nil,
    record { streams = e; ends = refl },
  )
  recv_exact_loop-stream zero size content (w ∷ ws) later incoming n f e = absurd (omega arith)
  recv_exact_loop-stream (suc fuel) size content (w ∷ ws) later [] n f e = cc
  recv_exact_loop-stream (suc fuel) size content (w ∷ ws) later (pause ∷ r) n f e = cc
  recv_exact_loop-stream (suc fuel) size content (w ∷ ws) later (chunk b bs ∷ r) n f e =
      let m : ℕ = length ws in
      let block : Bytes = b ∷ take m bs in
      let (left, a, k) = split_want (b ∷ bs) (stream r) (w ∷ ws) later e in
      let (rest, run, leaves) =
        recv_exact_loop-stream fuel size (content ++ block) left later (push (drop m bs) r)
          (omega (
            arith,
            length-append content block,
            length-append block left,
            ap (λ (t : Bytes). length t) a,
          ))
          (omega (arith, length-append block left, ap (λ (t : Bytes). length t) a))
          (stream-push (drop m bs) r ∙ k) in
      (
        rest,
        loop_round fuel size m b bs content r n
            ∙ run
            ∙ ap (λ t. (ok t, conn rest))
                (append_assoc content block left ∙ ap (λ t. content ++ t) (sym a)),
        record { streams = leaves.streams; ends = leaves.ends ∙ outcome-push (drop m bs) r },
      )

-- If the stream holds `want` and more, `recv_exact` returns `want`, however the stream is cut, and
-- leaves the rest of the stream; nothing is sent.
pub recv_exact-stream :
    (want later : Bytes) (c : Connection)
    → stream c.incoming ≡ want ++ later
    → (rest : List Arrival) × (recv_exact (length want) c ≡ (ok want, record c { incoming = rest }))
      × Leaves c.incoming rest later
unfolding recv_exact
recv_exact-stream want later c e =
    recv_exact_loop-stream c.accepts c.sent (length want) (length want) [] want later c.incoming
      (omega arith) (omega arith) e
