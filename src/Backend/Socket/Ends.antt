-- ===== src/Backend/Socket/Ends.antt =====
-- Methods that never run out of fuel.
use lighttpd_fuzz.Base.{
  ℕ, ◌≢◌, List, [], ◌∷◌, Bool, true, false, if◌then◌else◌, Result, ok, err, diverged,
}
use lighttpd_fuzz.Base.Bytes.{Bytes}
use lighttpd_fuzz.Backend.Socket.{
  Arrival, chunk, pause, Connection, Conn, continue, ◌>>=◌, recv_from, recv, recv_exact,
  send_response, lift,
}
use lighttpd_fuzz.Backend.Socket.Uses.{left, Uses, IsRaised, recv_exact-Uses, send_response-Uses}

-- On every connection the method returns or raises an exception of Python.
abbrev pub Ends : {A : Type 0} → Conn A → Type 0
Ends m = (c : Connection) → IsRaised (m c).0

continue-Ends :
    {A B : Type 0} (r : Result A) (f : A → Conn B) (c : Connection)
    → IsRaised r
    → ((a : A) → Ends (f a))
    → IsRaised (continue r f c).0
continue-Ends (ok a) f c h k = k a c
continue-Ends (err e) f c h k = h

pub Ends-bind :
    {A B : Type 0} (m : Conn A) (f : A → Conn B) → Ends m → ((a : A) → Ends (f a)) → Ends (m >>= f)
Ends-bind m f h k c = continue-Ends (m c).0 f (m c).1 (h c) k

pub Ends-lift : {A : Type 0} (r : Result A) → IsRaised r → Ends (lift r)
Ends-lift r h c = h

pub Ends-if : {A : Type 0} (b : Bool) (m k : Conn A) → Ends m → Ends k → Ends (if b then m else k)
Ends-if true m k h i = h
Ends-if false m k h i = i

Uses-IsRaised :
    {A : Type 0} (n before : ℕ) (out : Result A × Connection) → Uses n before out → IsRaised out.0
Uses-IsRaised n before (ok a, c) u = tt
Uses-IsRaised n before (err e, c) u = u

pub recv_exact-Ends : (size : ℕ) → Ends (recv_exact size)
recv_exact-Ends size c = Uses-IsRaised size (left c) (recv_exact size c) (recv_exact-Uses size c)

pub send_response-Ends :
    (content : Bytes) (short_writes : Bool) → Ends (send_response content short_writes)
send_response-Ends content short_writes c =
    Uses-IsRaised 0 (left c) (send_response content short_writes c)
      (send_response-Uses content short_writes c)

recv_from-IsRaised : (size : ℕ) (incoming : List Arrival) → IsRaised (recv_from size incoming).0
unfolding recv_from
recv_from-IsRaised size [] = tt
recv_from-IsRaised size (pause ∷ rest) = λ e. cc
recv_from-IsRaised size (chunk b bs ∷ rest) = tt

pub recv-Ends : (size : ℕ) → Ends (recv size)
unfolding recv
recv-Ends size c = recv_from-IsRaised size c.incoming

pub IsRaised-neq : {A : Type 0} (r : Result A) → IsRaised r → r ≢ err diverged
IsRaised-neq (ok a) h = λ e. cc
IsRaised-neq (err e) h = λ q. h (cc (q))
