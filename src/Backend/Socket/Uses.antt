-- ===== src/Backend/Socket/Uses.antt =====
-- What a method that returns has taken from the stream, and that it is never out of fuel.
use lighttpd_fuzz.Base.{
  ℕ, zero, suc, ◌+◌, ◌≤◌, List, [], ◌∷◌, ◌≡◌, ◌≢◌, refl, sym, ap, Bool, true, false, length,
  length-take, length-drop, take, drop, take-append-drop, Bool-cases, leb, inl, inr, Result, ok,
  err, diverged, arith,
}
use mathlib.Core.Path.{subst}
use lighttpd_fuzz.Base.Bytes.{Bytes}
use lighttpd_fuzz.Backend.Socket.{
  Arrival, chunk, pause, Connection, Conn, continue, ◌>>=◌, recv_exact, send, sent_some, send_all,
  send_loop, send_response,
}
use lighttpd_fuzz.Backend.Socket.Stream.{stream, outcome, recv_exact-stream}
use lighttpd_fuzz.Backend.Socket.Short.{recv_exact-short}

-- How much of the stream is left.
abbrev pub left : Connection → ℕ
left c = length (stream c.incoming)

-- From `before` bytes of the stream a method that returns takes `n` at least.
abbrev pub Uses {ℓ} : {A : Type ℓ} → ℕ → ℕ → Result A × Connection → Type 0
Uses n before (ok a, c) = n + left c ≤ before
Uses n before (err e, c) = e ≢ diverged

abbrev pub IsRaised {ℓ} : {A : Type ℓ} → Result A → Type 0
IsRaised (ok a) = Unit {0}
IsRaised (err e) = e ≢ diverged

Uses-mono :
    {A : Type 0} (n k before after : ℕ) (out : Result A × Connection)
    → n + after ≤ before
    → Uses k after out
    → Uses (n + k) before out
Uses-mono n k before after (ok a, c) h u = omega arith
Uses-mono n k before after (err e, c) h u = u

Uses-continue :
    {A B : Type 0} (n k before : ℕ) (r : Result A) (f : A → Conn B) (c : Connection)
    → Uses n before (r, c)
    → ((a : A) (c : Connection) → Uses k (left c) (f a c))
    → Uses (n + k) before (continue r f c)
Uses-continue n k before (ok a) f c u v = Uses-mono n k before (left c) (f a c) u (v a c)
Uses-continue n k before (err e) f c u v = u

pub Uses-bind :
    {A B : Type 0} (n k : ℕ) (m : Conn A) (f : A → Conn B) (c : Connection)
    → Uses n (left c) (m c)
    → ((a : A) (c : Connection) → Uses k (left c) (f a c))
    → Uses (n + k) (left c) ((m >>= f) c)
Uses-bind n k m f c u v = Uses-continue n k (left c) (m c).0 f (m c).1 u v

pub Uses-lift : {A : Type 0} (r : Result A) (c : Connection) → IsRaised r → Uses 0 (left c) (r, c)
Uses-lift (ok a) c h = omega arith
Uses-lift (err e) c h = h

outcome-raised : (incoming : List Arrival) → outcome incoming ≢ diverged
outcome-raised [] = λ e. cc
outcome-raised (pause ∷ rest) = λ e. cc
outcome-raised (chunk b bs ∷ rest) = outcome-raised rest

pub recv_exact-Uses : (size : ℕ) (c : Connection) → Uses size (left c) (recv_exact size c)
recv_exact-Uses size c = elim (Bool-cases (leb size (left c))) [
  | inl enough ↦
      let want : Bytes = take size (stream c.incoming) in
      let later : Bytes = drop size (stream c.incoming) in
      let n : length want ≡ size = (let t = length-take size (stream c.incoming) in ground arith) in
      let fits : size ≤ left c = ground arith in
      let (rest, run, leaves) =
        recv_exact-stream want later c (sym (take-append-drop size (stream c.incoming))) in
      subst (λ s. Uses s (left c) (recv_exact s c)) n
        (subst (Uses (length want) (left c)) (sym run) (
          omega (
            arith,
            n,
            length-drop size (stream c.incoming),
            ap (λ (t : Bytes). length t) leaves.streams,
            fits,
          )))
  | inr short ↦
      let (rest, run) = recv_exact-short size c (ground arith) in
      subst (Uses size (left c)) (sym run) (outcome-raised c.incoming)
]

after_send :
    (n fuel b : ℕ) (bs : Bytes) (c : Connection)
    → ((n : ℕ) → Uses 0 (left c) (send_loop fuel (drop n bs) c))
    → Uses 0 (left c) ((sent_some n >>= λ _. send_loop fuel (drop n (b ∷ bs))) c)
after_send zero fuel b bs c h = λ e. cc
after_send (suc n) fuel b bs c h = h n

send_round :
    (fuel b : ℕ) (bs : Bytes) (c : Connection)
    → (n : ℕ) × (accepts : List ℕ) × (sent : Bytes) × (send_loop (suc fuel) (b ∷ bs) c
        ≡ (sent_some n >>= λ _. send_loop fuel (drop n (b ∷ bs)))
            (record c { accepts = accepts; sent = sent }))
unfolding send_loop send
send_round fuel b bs c = (_, _, _, refl)

send_loop-Uses :
    (fuel : ℕ) (content : Bytes) (c : Connection)
    → length content ≤ fuel
    → Uses 0 (left c) (send_loop fuel content c)
unfolding send_loop
send_loop-Uses fuel [] c h = omega arith
send_loop-Uses zero (b ∷ bs) c h = absurd (omega arith)
send_loop-Uses (suc fuel) (b ∷ bs) c h =
    let (n, accepts, sent, run) = send_round fuel b bs c in
    let c' : Connection = record c { accepts = accepts; sent = sent } in
    subst (Uses 0 (left c)) (sym run) (
      after_send n fuel b bs c'
        (λ n. send_loop-Uses fuel (drop n bs) c' (omega (arith, length-drop n bs))))

pub send_response-Uses :
    (content : Bytes) (short_writes : Bool) (c : Connection)
    → Uses 0 (left c) (send_response content short_writes c)
unfolding send_response send_all
send_response-Uses content true c = send_loop-Uses (length content) content c (omega arith)
send_response-Uses content false c = omega arith

pub Uses-fewer :
    {A : Type 0} (n before : ℕ) (out : Result A × Connection)
    → Uses n before out
    → Uses 0 before out
Uses-fewer n before (ok a, c) h = omega arith
Uses-fewer n before (err e, c) h = h
