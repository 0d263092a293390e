-- ===== src/Backend/Server/Steps.antt =====
-- The steps of a server keep each client in one place.
use lighttpd_fuzz.Base.{
  ℕ, suc, ◌+◌, ◌≤◌, List, [], ◌∷◌, ◌≡◌, refl, ap, ◌∙◌, Bool, true, false, ltb, if◌then◌else◌,
  length, length-append, get_elem?, Option, none, some, Bool-cases, inl, inr, arith,
}
use mathlib.Core.Path.{subst}
use lighttpd_fuzz.Backend.Server.{
  Acceptor, tests, accepts, holds, ended, Worker, idle, gets, taken, handles, leaves, gone, Server,
  perform, test_acceptor, accept_client, leave_accept, put_client, move_worker, Move, test, take,
  give_up, begin, close, discard, drain, Stop, not_called, flagged, unlistened, drains, returned,
  stop_next, work_of, Action, acceptor_test, accept, accept_timeout, accept_error, put, stop_step,
  work, Reached, start, after, take_first, if_empty, without, move_to,
}
use lighttpd_fuzz.Backend.Server.Places.{
  count, held, served_by, IsSound, count-append, served-set_worker, length-set_worker,
  started-IsSound,
}

abbrev pub OnSome : (Server → Type 0) → Option Server → Type 0
OnSome P none = Unit
OnSome P (some s) = P s

module _ (workers : ℕ) where
  -- A step that leaves the sizes, the queue and the number of workers, and moves no client.
  unmoved :
      (s : Server) (a : Acceptor)
      → s.acceptor ≡ a
      → (next : Acceptor) → ((c : ℕ) → held c next ≡ held c a)
      → IsSound workers s
      → IsSound workers (record s { acceptor = next })
  unmoved s a e next same h = record {
    sized = h.sized;
    fits = h.fits;
    manned = h.manned;
    once = λ c.
        let r : held c s.acceptor ≡ held c a = ap (held c) e in omega (arith, h.once c, same c);
  }

  test_acceptor-IsSound :
      (a : Acceptor) (s : Server)
      → s.acceptor ≡ a
      → IsSound workers s
      → OnSome (IsSound workers) (test_acceptor a s)
  unfolding test_acceptor
  test_acceptor-IsSound tests s e h =
      unmoved s tests e (if s.stopping then ended else accepts) (λ c. free s.stopping c) h
    where
      free : (b : Bool) (c : ℕ) → held c (if b then ended else accepts) ≡ 0
      free true c = refl
      free false c = refl
  test_acceptor-IsSound accepts s e h = tt
  test_acceptor-IsSound (holds d) s e h = tt
  test_acceptor-IsSound ended s e h = tt

  accept_client-IsSound :
      (a : Acceptor) (s : Server)
      → s.acceptor ≡ a
      → IsSound workers s
      → OnSome (IsSound workers) (accept_client a s)
  unfolding accept_client
  accept_client-IsSound accepts s e h = elim (Bool-cases s.listening) [
    | inl listens ↦ rw listens record {
      sized = h.sized;
      fits = h.fits;
      manned = h.manned;
      once = λ c. let r : held c s.acceptor ≡ 0 = ap (held c) e in let q = h.once c in ground arith;
    }
    | inr deaf ↦ rw deaf tt
  ]
  accept_client-IsSound tests s e h = tt
  accept_client-IsSound (holds d) s e h = tt
  accept_client-IsSound ended s e h = tt

  leave_accept-IsSound :
      (next a : Acceptor) (s : Server)
      → ((c : ℕ) → held c next ≡ 0)
      → s.acceptor ≡ a
      → IsSound workers s
      → OnSome (IsSound workers) (leave_accept next a s)
  unfolding leave_accept
  leave_accept-IsSound next accepts s free e h = unmoved s accepts e next free h
  leave_accept-IsSound next tests s free e h = tt
  leave_accept-IsSound next (holds d) s free e h = tt
  leave_accept-IsSound next ended s free e h = tt

  put_client-IsSound :
      (a : Acceptor) (s : Server)
      → s.acceptor ≡ a
      → IsSound workers s
      → OnSome (IsSound workers) (put_client a s)
  unfolding put_client
  put_client-IsSound (holds d) s e h = elim (Bool-cases (ltb (length s.waiting) s.capacity)) [
    | inl room ↦ rw room record {
      sized = h.sized;
      fits =
          let short : suc (length s.waiting) ≤ s.capacity = ground arith in
          omega (arith, short, length-append s.waiting (d ∷ []));
      manned = h.manned;
      once = λ c.
          let r : held c s.acceptor ≡ held c (holds d) = ap (held c) e in
          omega (arith, h.once c, r, count-append c s.waiting (d ∷ []));
    }
    | inr full ↦ rw full record {
      sized = h.sized;
      fits = h.fits;
      manned = h.manned;
      once = λ c.
          let r : held c s.acceptor ≡ held c (holds d) = ap (held c) e in
          omega (arith, h.once c, r);
    }
  ]
  put_client-IsSound tests s e h = tt
  put_client-IsSound accepts s e h = tt
  put_client-IsSound ended s e h = tt

  drain-IsSound :
      (queue : List ℕ) (s : Server)
      → s.waiting ≡ queue
      → IsSound workers s
      → OnSome (IsSound workers) (drain queue s)
  unfolding drain
  drain-IsSound [] s e h = record {
    sized = h.sized;
    fits = h.fits;
    manned = h.manned;
    once = h.once;
  }
  drain-IsSound (d ∷ rest) s e h = record {
    sized = h.sized;
    fits =
        let n : length s.waiting ≡ suc (length rest) = ap (λ (t : List ℕ). length t) e in
        omega (arith, h.fits);
    manned = h.manned;
    once = λ c.
        let r : count c s.waiting ≡ count c (d ∷ rest) = ap (count c) e in
        omega (arith, h.once c, r);
  }

  stop_next-IsSound :
      (phase : Stop) (s : Server) → IsSound workers s → OnSome (IsSound workers) (stop_next phase s)
  unfolding stop_next
  stop_next-IsSound not_called s h = record {
    sized = h.sized;
    fits = h.fits;
    manned = h.manned;
    once = h.once;
  }
  stop_next-IsSound flagged s h = record {
    sized = h.sized;
    fits = h.fits;
    manned = h.manned;
    once = h.once;
  }
  stop_next-IsSound unlistened s h = record {
    sized = h.sized;
    fits = h.fits;
    manned = h.manned;
    once = h.once;
  }
  stop_next-IsSound drains s h = drain-IsSound s.waiting s refl h
  stop_next-IsSound returned s h = tt

  -- A worker that moves to another state, when a client may come from the queue or go to those released.
  moved-IsSound :
      (s t : Server) (n : ℕ) (w v : Worker)
      → get_elem? s.workers n ≡ some w
      → t.workers ≡ s.workers
      → t.acceptor ≡ s.acceptor
      → t.capacity ≡ s.capacity
      → t.accepted ≡ s.accepted
      → length t.waiting ≤ length s.waiting
      → ((c : ℕ)
          → count c t.waiting + (served_by c v + count c t.released)
            ≡ count c s.waiting + (served_by c w + count c s.released))
      → IsSound workers s
      → OnSome (IsSound workers) (move_to n v t)
  moved-IsSound s t n w v at same_workers same_acceptor same_capacity same_accepted shorter balance
        h =
      record {
        sized = same_capacity ∙ h.sized;
        fits = omega (arith, h.fits);
        manned =
            length-set_worker n v t.workers
            ∙ ap (λ (t : List Worker). length t) same_workers
            ∙ h.manned;
        once = λ c.
            rw (same_workers, same_acceptor, same_accepted)
              (omega (arith, h.once c, balance c, served-set_worker c n v w s.workers at));
      }

  move_worker-IsSound :
      (move : Move) (n : ℕ) (w : Worker) (s : Server)
      → get_elem? s.workers n ≡ some w
      → IsSound workers s
      → OnSome (IsSound workers) (move_worker move n w s)
  unfolding move_worker
  move_worker-IsSound test n idle s at h =
      moved-IsSound s s n idle (if s.stopping then gone else gets) at refl refl refl refl
        (omega arith) (λ c. let e = free s.stopping c in omega (arith, e)) h
    where
      free : (b : Bool) (c : ℕ) → served_by c (if b then gone else gets) ≡ 0
      free true c = refl
      free false c = refl
  move_worker-IsSound take n gets s at h = by_queue s.waiting refl
    where
      by_queue :
          (queue : List ℕ) → s.waiting ≡ queue → OnSome (IsSound workers) (take_first n queue s)
      by_queue [] e = tt
      by_queue (d ∷ rest) e =
          moved-IsSound s (record s { waiting = rest }) n gets (taken d) at refl refl refl refl
            (let l : length s.waiting ≡ suc (length rest) = ap (λ (t : List ℕ). length t) e in
              omega arith)
            (λ c. let r : count c s.waiting ≡ count c (d ∷ rest) = ap (count c) e in omega arith) h
  move_worker-IsSound give_up n gets s at h = by_queue s.waiting
    where
      by_queue : (queue : List ℕ) → OnSome (IsSound workers) (if_empty n queue s)
      by_queue [] =
          moved-IsSound s s n gets idle at refl refl refl refl (omega arith) (λ c. omega arith) h
      by_queue (d ∷ rest) = tt
  move_worker-IsSound begin n (taken d) s at h =
      moved-IsSound s (record s { active = d ∷ s.active }) n (taken d) (handles d) at refl refl refl
        refl (omega arith) (λ c. omega arith) h
  move_worker-IsSound close n (handles d) s at h =
      moved-IsSound s (record s { released = d ∷ s.released }) n (handles d) (leaves d) at refl refl
        refl refl (omega arith) (λ c. omega arith) h
  move_worker-IsSound discard n (leaves d) s at h =
      moved-IsSound s (record s { active = without d s.active }) n (leaves d) idle at refl refl refl
        refl (omega arith) (λ c. omega arith) h
  move_worker-IsSound _ n _ s at h = tt

  perform-IsSound :
      (action : Action) (s : Server)
      → IsSound workers s
      → OnSome (IsSound workers) (perform action s)
  unfolding perform
  perform-IsSound acceptor_test s h = test_acceptor-IsSound s.acceptor s refl h
  perform-IsSound accept s h = accept_client-IsSound s.acceptor s refl h
  perform-IsSound accept_timeout s h = leave_accept-IsSound tests s.acceptor s (λ c. refl) refl h
  perform-IsSound accept_error s h = leave_accept-IsSound ended s.acceptor s (λ c. refl) refl h
  perform-IsSound put s h = put_client-IsSound s.acceptor s refl h
  perform-IsSound stop_step s h = stop_next-IsSound s.stop s h
  perform-IsSound (work n move) s h = by_worker (get_elem? s.workers n) refl
    where
      by_worker :
          (o : Option Worker)
          → get_elem? s.workers n ≡ o
          → OnSome (IsSound workers) (work_of move n o s)
      by_worker none e = tt
      by_worker (some w) e = move_worker-IsSound move n w s e h

  -- In every state that a server with `workers` workers comes to, whatever the order of the steps of its
  -- threads and of `stop`, the queue holds at most `max(4, workers * 4)` clients, and each client that was
  -- accepted is in exactly one place: with the acceptor, in the queue, with a worker, or closed.
  pub Reached-IsSound : (s : Server) → Reached workers s → IsSound workers s
  Reached-IsSound s start = started-IsSound workers
  Reached-IsSound s (after {s = before} action reached step) =
      subst (OnSome (IsSound workers)) step
        (perform-IsSound action before (Reached-IsSound before reached))
