-- ===== src/Backend/Server/Places.antt =====
-- Where the clients of a server are.
use lighttpd_fuzz.Base.{
  ℕ, zero, suc, ◌+◌, ◌≤◌, List, [], ◌∷◌, ◌++◌, ◌≡◌, refl, ltb, ◌==◌, if◌then◌else◌, length,
  get_elem?, some, arith, replicate,
}
use lighttpd_fuzz.Backend.Server.{
  Acceptor, holds, Worker, idle, taken, handles, Server, capacity_of, set_worker, started,
}

abbrev pub count : ℕ → List ℕ → ℕ
count c [] = 0
count c (d ∷ ds) = (if d == c then 1 else 0) + count c ds

abbrev pub held : ℕ → Acceptor → ℕ
held c (holds d) = if d == c then 1 else 0
held c _ = 0

abbrev pub served_by : ℕ → Worker → ℕ
served_by c (taken d) = if d == c then 1 else 0
served_by c (handles d) = if d == c then 1 else 0
served_by c _ = 0

abbrev pub served : ℕ → List Worker → ℕ
served c [] = 0
served c (w ∷ ws) = served_by c w + served c ws

-- In how many places a client is: with the acceptor, in the queue, with a worker, or closed for good.
abbrev pub places : ℕ → Server → ℕ
places c s = held c s.acceptor + (count c s.waiting + (served c s.workers + count c s.released))

-- The queue is not too long, there are as many workers as at the start, and each client that was accepted,
-- and no other, is in one place.
pub record IsSound (workers : ℕ) (s : Server) : Type 0 where
  pub sized : s.capacity ≡ capacity_of workers
  pub fits : length s.waiting ≤ s.capacity
  pub manned : length s.workers ≡ workers
  pub once : (c : ℕ) → places c s ≡ (if ltb c s.accepted then 1 else 0)

pub count-append : (c : ℕ) (xs ys : List ℕ) → count c (xs ++ ys) ≡ count c xs + count c ys
count-append c [] ys = omega arith
count-append c (x ∷ xs) ys = omega (arith, count-append c xs ys)

pub served-set_worker :
    (c n : ℕ) (v w : Worker) (ws : List Worker)
    → get_elem? ws n ≡ some w
    → served c (set_worker n v ws) + served_by c w ≡ served c ws + served_by c v
served-set_worker c n v w [] e = cc
served-set_worker c zero v w (x ∷ ws) e = let same : x ≡ w = cc in rw same (omega arith)
served-set_worker c (suc n) v w (x ∷ ws) e = omega (arith, served-set_worker c n v w ws e)

pub length-set_worker :
    (n : ℕ) (v : Worker) (ws : List Worker) → length (set_worker n v ws) ≡ length ws
length-set_worker n v [] = refl
length-set_worker zero v (x ∷ ws) = refl
length-set_worker (suc n) v (x ∷ ws) = omega (arith, length-set_worker n v ws)

served-replicate : (c n : ℕ) → served c (replicate n idle) ≡ 0
served-replicate c zero = refl
served-replicate c (suc n) = omega (arith, served-replicate c n)

length-replicate_idle : (n : ℕ) → length (replicate n idle) ≡ n
length-replicate_idle zero = refl
length-replicate_idle (suc n) = omega (arith, length-replicate_idle n)

pub started-IsSound : (workers : ℕ) → IsSound workers (started workers)
unfolding started
started-IsSound workers = record {
  sized = refl;
  fits = omega arith;
  manned = length-replicate_idle workers;
  once = λ c. let e = served-replicate c workers in ground arith;
}
