-- ===== src/Backend/Server.antt =====
-- `BackendServer` of backend-responder.py: one acceptor, the workers and `stop`, whose steps come in any
-- order. A step is what a thread does between two points at which another thread can see it.
pub mod Places
pub mod Steps
use lighttpd_fuzz.Base.{
  ℕ, zero, suc, ◌≡◌, ◌+◌, ◌*◌, List, [], ◌∷◌, ◌++◌, Bool, true, false, ltb, ◌==◌, if◌then◌else◌,
  length, replicate, get_elem?, Option, none, some,
}

-- `max(4, workers * 4)`
unfoldable pub capacity_of : ℕ → ℕ
capacity_of workers = if ltb 4 (workers * 4) then workers * 4 else 4

-- Where the acceptor stands: at the test of `_stopping`, in `accept`, with a client, or at its end.
pub data Acceptor : Type 0 where
  tests : Acceptor
  accepts : Acceptor
  holds : ℕ → Acceptor
  ended : Acceptor

-- Where a worker stands: at the test of `_stopping`, in `get`, with a client that is not active yet, in the
-- handler, behind the `with` that has closed the client, or at its end.
pub data Worker : Type 0 where
  idle : Worker
  gets : Worker
  taken : ℕ → Worker
  handles : ℕ → Worker
  leaves : ℕ → Worker
  gone : Worker

-- How far `stop` has come.
pub data Stop : Type 0 where
  not_called flagged unlistened drains returned : Stop

-- Clients are numbered as they are accepted. `released` are those that the acceptor, the worker or the
-- draining of the queue has closed, `shut` those that `stop` has closed under a worker.
pub record Server : Type 0 where
  pub capacity : ℕ
  pub stopping : Bool
  pub listening : Bool
  pub accepted : ℕ
  pub waiting : List ℕ
  pub active : List ℕ
  pub acceptor : Acceptor
  pub workers : List Worker
  pub stop : Stop
  pub released : List ℕ
  pub shut : List ℕ

-- What a worker may do next, besides waiting.
pub data Move : Type 0 where
  test take give_up begin close discard : Move

pub data Action : Type 0 where
  acceptor_test accept accept_timeout accept_error put stop_step : Action
  work : ℕ → Move → Action

-- After `start`.
unfoldable pub started : ℕ → Server
started workers = record {
  capacity = capacity_of workers;
  stopping = false;
  listening = true;
  accepted = 0;
  waiting = [];
  active = [];
  acceptor = tests;
  workers = replicate workers idle;
  stop = not_called;
  released = [];
  shut = [];
}

-- The acceptor.
unfoldable pub test_acceptor : Acceptor → Server → Option Server
test_acceptor tests s = some (record s { acceptor = if s.stopping then ended else accepts })
test_acceptor _ s = none

unfoldable pub accept_client : Acceptor → Server → Option Server
accept_client accepts s =
    if s.listening
    then some (record s { acceptor = holds s.accepted; accepted = s.accepted + 1 })
    else none
accept_client _ s = none

unfoldable pub leave_accept : Acceptor → Acceptor → Server → Option Server
leave_accept next accepts s = some (record s { acceptor = next })
leave_accept next _ s = none

-- `put_nowait`, or `client.close()` when the queue is full.
unfoldable pub put_client : Acceptor → Server → Option Server
put_client (holds client) s =
    if ltb (length s.waiting) s.capacity
    then some (record s { acceptor = tests; waiting = s.waiting ++ client ∷ [] })
    else some (record s { acceptor = tests; released = client ∷ s.released })
put_client _ s = none

-- A worker is put into another state.
abbrev pub set_worker : ℕ → Worker → List Worker → List Worker
set_worker n w [] = []
set_worker zero w (v ∷ vs) = w ∷ vs
set_worker (suc n) w (v ∷ vs) = v ∷ set_worker n w vs

abbrev pub move_to : ℕ → Worker → Server → Option Server
move_to n w s = some (record s { workers = set_worker n w s.workers })

abbrev pub take_first : ℕ → List ℕ → Server → Option Server
take_first n [] s = none
take_first n (client ∷ rest) s = move_to n (taken client) (record s { waiting = rest })

-- `queue.Empty`
abbrev pub if_empty : ℕ → List ℕ → Server → Option Server
if_empty n [] s = move_to n idle s
if_empty n (client ∷ rest) s = none

-- `self._active.discard(client)`
abbrev pub without : ℕ → List ℕ → List ℕ
without client [] = []
without client (c ∷ cs) = if c == client then without client cs else c ∷ without client cs

unfoldable pub move_worker : Move → ℕ → Worker → Server → Option Server
move_worker test n idle s = move_to n (if s.stopping then gone else gets) s
move_worker take n gets s = take_first n s.waiting s
move_worker give_up n gets s = if_empty n s.waiting s
move_worker begin n (taken client) s =
    move_to n (handles client) (record s { active = client ∷ s.active })
move_worker close n (handles client) s =
    move_to n (leaves client) (record s { released = client ∷ s.released })
move_worker discard n (leaves client) s =
    move_to n idle (record s { active = without client s.active })
move_worker _ n _ s = none

-- The `while True` loop of `stop`.
unfoldable pub drain : List ℕ → Server → Option Server
drain [] s = some (record s { stop = returned })
drain (client ∷ rest) s = some (record s { waiting = rest; released = client ∷ s.released })

unfoldable pub stop_next : Stop → Server → Option Server
stop_next not_called s = some (record s { stop = flagged; stopping = true })
stop_next flagged s = some (record s { stop = unlistened; listening = false })
stop_next unlistened s = some (record s { stop = drains; shut = s.active ++ s.shut })
stop_next drains s = drain s.waiting s
stop_next returned s = none

abbrev pub work_of : Move → ℕ → Option Worker → Server → Option Server
work_of move n none s = none
work_of move n (some w) s = move_worker move n w s

-- The state after an action, if the thread stands where it can be done.
unfoldable pub perform : Action → Server → Option Server
perform acceptor_test s = test_acceptor s.acceptor s
perform accept s = accept_client s.acceptor s
perform accept_timeout s = leave_accept tests s.acceptor s
perform accept_error s = leave_accept ended s.acceptor s
perform put s = put_client s.acceptor s
perform stop_step s = stop_next s.stop s
perform (work n move) s = work_of move n (get_elem? s.workers n) s

-- The states that a server with so many workers comes to.
pub data Reached (workers : ℕ) : Server → Type 0 where
  start : Reached workers (started workers)
  after :
      {s t : Server} (action : Action)
      → Reached workers s
      → perform action s ≡ some t
      → Reached workers t
