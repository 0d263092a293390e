-- ===== src/Backend/Socket.antt =====
-- A connection of backend-responder.py as the handlers see it: what the peer sends, cut into pieces
-- in any way, and what was sent to the peer. `_recv_exact`, `_recv_headers` and `_send`.
pub mod Stream
pub mod Short
pub mod Sent
pub mod Uses
pub mod Ends
use lighttpd_fuzz.Base.{
  ℕ, zero, suc, ◌+◌, ◌-◌, List, [], ◌∷◌, ◌++◌, Bool, true, false, ltb, leb, ◌==◌, min,
  if◌then◌else◌, length, take, drop, Result, ok, err, Error, eof_error, timeout_error,
  connection_error, diverged,
}
use lighttpd_fuzz.Base.Bytes.{Bytes}

-- A piece that has arrived, never empty; or nothing until the timeout. At the end of the list the
-- peer has closed.
pub data Arrival : Type 0 where
  chunk : ℕ → Bytes → Arrival
  pause : Arrival

-- `accepts` says how many bytes each `send` takes at most; when it is used up, all.
pub record Connection : Type 0 where
  pub incoming : List Arrival
  pub accepts : List ℕ
  pub sent : Bytes

-- A method that uses the connection and may raise.
abbrev pub Conn : Type 0 → Type 0
Conn A = Connection → Result A × Connection

abbrev pub continue : {A B : Type 0} → Result A → (A → Conn B) → Conn B
continue (ok a) f c = f a c
continue (err e) f c = (err e, c)

infixl 5 ◌>>=◌ ◌>>◌
abbrev pub ◌>>=◌ : {A B : Type 0} → Conn A → (A → Conn B) → Conn B
◌>>=◌ m f c = let (r, c') = m c in continue r f c'

abbrev pub ◌>>◌ : {B : Type 0} → Conn (Unit {0}) → Conn B → Conn B
m >> k = m >>= λ _. k

abbrev pub pure : {A : Type 0} → A → Conn A
pure a c = (ok a, c)

abbrev pub raise : {A : Type 0} → Error → Conn A
raise e c = (err e, c)

abbrev pub lift : {A : Type 0} → Result A → Conn A
lift r c = (r, c)

-- What is left of a piece stays first in line.
abbrev pub push : Bytes → List Arrival → List Arrival
push [] rest = rest
push (b ∷ bs) rest = chunk b bs ∷ rest

-- `sock.recv(size)`
unfoldable pub recv_from : ℕ → List Arrival → Result Bytes × List Arrival
recv_from size [] = (ok [], [])
recv_from size (pause ∷ rest) = (err timeout_error, rest)
recv_from size (chunk b bs ∷ rest) = (ok (take size (b ∷ bs)), push (drop size (b ∷ bs)) rest)

unfoldable pub recv : ℕ → Conn Bytes
unfolding recv_from
recv size c = let (r, rest) = recv_from size c.incoming in (r, record c { incoming = rest })

-- `if not block: raise EOFError`
abbrev pub block_or_eof : Bytes → Conn (Unit {0})
block_or_eof [] = raise eof_error
block_or_eof (b ∷ bs) = pure tt

-- The `while` loop of `_recv_exact`, over what `data` holds so far. Each round but the last brings a
-- byte at least, so `length` rounds are enough.
unfoldable pub recv_exact_loop : ℕ → ℕ → Bytes → Conn Bytes
recv_exact_loop zero size content c =
    if ltb (length content) size then (err diverged, c) else (ok content, c)
recv_exact_loop (suc fuel) size content c =
    let next = (do
      block ← recv (size - length content)
      block_or_eof block
      recv_exact_loop fuel size (content ++ block)) in
    let more = next c in if ltb (length content) size then more else (ok content, c)

unfoldable pub recv_exact : ℕ → Conn Bytes
recv_exact size = recv_exact_loop size size []

-- `sock.sendall`
unfoldable pub send_all : Bytes → Conn (Unit {0})
send_all content c = (ok tt, record c { sent = c.sent ++ content })

-- How many of `size` bytes the next `send` takes, and what it leaves for later calls.
abbrev pub accept : ℕ → List ℕ → ℕ × List ℕ
accept size [] = (size, [])
accept size (n ∷ ns) = (min n size, ns)

-- `sock.send(view)`, which returns the number of bytes that it took.
unfoldable pub send : Bytes → Conn ℕ
send view c =
    let (n, rest) = accept (length view) c.accepts in
    (ok n, record c { accepts = rest; sent = c.sent ++ take n view })

-- `if sent <= 0: raise ConnectionError`
abbrev pub sent_some : ℕ → Conn (Unit {0})
sent_some zero = raise connection_error
sent_some (suc n) = pure tt

-- The `while view` loop of `_send`: at most three bytes a round. A round that does not raise sends a
-- byte at least, so `len(data)` rounds are enough.
unfoldable pub send_loop : ℕ → Bytes → Conn (Unit {0})
send_loop fuel [] c = (ok tt, c)
send_loop zero (b ∷ bs) c = (err diverged, c)
send_loop (suc fuel) (b ∷ bs) c =
    let next = (do n ← send (take 3 (b ∷ bs)); sent_some n; send_loop fuel (drop n (b ∷ bs))) in
    next c

-- `_send`; the pause after a short write is left out.
unfoldable pub send_response : Bytes → Bool → Conn (Unit {0})
send_response content short_writes =
    if short_writes then send_loop (length content) content else send_all content
