-- ===== src/Backend/Socket/Sent.antt =====
-- What `send_response` sends.
use lighttpd_fuzz.Base.{
  ℕ, zero, suc, ◌-◌, ◌≤◌, List, [], ◌∷◌, ◌++◌, ◌≡◌, refl, ap, ◌∙◌, Bool, true, false, length,
  length-take, length-drop, append_assoc, append-nil, take, drop, take-append-drop, All, min, ok,
  arith,
}
use lighttpd_fuzz.Base.Bytes.{Bytes}
use lighttpd_fuzz.Backend.Socket.{
  Connection, send_all, send, accept, send_loop, send_response, Arrival,
}

take-take : (m n : ℕ) (xs : Bytes) → m ≤ n → take m (take n xs) ≡ take m xs
take-take zero n xs h = refl
take-take (suc m) zero xs h = absurd (omega arith)
take-take (suc m) (suc n) [] h = refl
take-take (suc m) (suc n) (x ∷ xs) h = ap (λ t. x ∷ t) (take-take m n xs (omega arith))

-- What a `send` that takes something takes of `suc k` bytes.
accept_some :
    (k : ℕ) (accepts : List ℕ)
    → All (λ n. 1 ≤ n) accepts
    → (n : ℕ) × (rest : List ℕ) × (accept (suc k) accepts ≡ (suc n, rest))
      × (n ≤ k)
      × All (λ n. 1 ≤ n) rest
accept_some k [] h = (k, [], refl, omega arith, tt)
accept_some k (a ∷ rest) (h, hs) =
    let e : min a (suc k) ≡ suc (min a (suc k) - 1) = omega arith in
    (min a (suc k) - 1, rest, ap (λ t. (t, rest)) e, omega arith, hs)

module _ (incoming : List Arrival) where
  abbrev conn : List ℕ → Bytes → Connection
  conn accepts sent = record { incoming = incoming; accepts = accepts; sent = sent }

  -- A round in which `n` bytes more than one are taken.
  loop_round :
      (fuel n b : ℕ) (bs : Bytes) (accepts rest : List ℕ) (sent : Bytes)
      → accept (length (take 3 (b ∷ bs))) accepts ≡ (suc n, rest)
      → send_loop (suc fuel) (b ∷ bs) (conn accepts sent)
        ≡ send_loop fuel (drop n bs) (conn rest (sent ++ take (suc n) (take 3 (b ∷ bs))))
  unfolding send_loop send
  loop_round fuel n b bs accepts rest sent e = rw e

  send_loop-sends :
      (fuel : ℕ) (content : Bytes) (accepts : List ℕ) (sent : Bytes)
      → length content ≤ fuel
      → All (λ n. 1 ≤ n) accepts
      → (rest : List ℕ) × (send_loop fuel content (conn accepts sent)
          ≡ (ok tt, conn rest (sent ++ content)))
  send_loop-sends fuel [] accepts sent f h = (accepts, rw append-nil (unfold send_loop in refl))
  send_loop-sends zero (b ∷ bs) accepts sent f h = absurd (omega arith)
  send_loop-sends (suc fuel) (b ∷ bs) accepts sent f h =
      let (n, rest, e, small, h') = accept_some (length (take 2 bs)) accepts h in
      let (rest', run) =
        send_loop-sends fuel (drop n bs) rest (sent ++ take (suc n) (take 3 (b ∷ bs)))
          (omega (arith, length-drop n bs)) h' in
      (
        rest',
        loop_round fuel n b bs accepts rest sent e
            ∙ run
            ∙ ap (λ t. (ok tt, conn rest' t))
                (ap (λ t. (sent ++ t) ++ drop n bs)
                    (take-take (suc n) 3 (b ∷ bs) (omega (arith, length-take 2 bs)))
                  ∙ append_assoc sent (take (suc n) (b ∷ bs)) (drop n bs)
                  ∙ ap (λ t. sent ++ b ∷ t) (take-append-drop n bs)),
      )

-- If every `send` takes a byte at least, `send_response` returns, in one piece or in short ones, and has
-- sent all of the response and nothing else, in order; nothing is received.
pub send_response-sends :
    (content : Bytes) (short_writes : Bool) (c : Connection)
    → All (λ n. 1 ≤ n) c.accepts
    → (rest : List ℕ) × (send_response content short_writes c
        ≡ (ok tt, record c { accepts = rest; sent = c.sent ++ content }))
unfolding send_response send_all
send_response-sends content true c h =
    send_loop-sends c.incoming (length content) content c.accepts c.sent (omega arith) h
send_response-sends content false c h = (c.accepts, refl)
