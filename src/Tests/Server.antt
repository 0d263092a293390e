-- ===== src/Tests/Server.antt =====
-- Runs of the server of backend-responder.py.
use lighttpd_fuzz.Base.{List, [], ◌∷◌, ◌≡◌, refl, true, false, Option, none, some}
use lighttpd_fuzz.Backend.Server.{
  Server, started, capacity_of, perform, test_acceptor, accept_client, put_client, move_worker,
  drain, stop_next, Action, acceptor_test, accept, put, stop_step, work, test, start, after,
  returned, ended, holds, gone, accepts,
}
use lighttpd_fuzz.Backend.Server.Places.{IsSound}
use lighttpd_fuzz.Backend.Server.Steps.{Reached-IsSound}

abbrev follow : List Action → Option Server → Option Server
follow actions none = none
follow [] (some s) = some s
follow (action ∷ actions) (some s) = follow actions (perform action s)

-- The first client is accepted, then `stop` runs, and then the client is put into the queue.
abbrev late_actions : List Action
late_actions =
    acceptor_test
    ∷ accept
    ∷ stop_step
    ∷ stop_step
    ∷ stop_step
    ∷ stop_step
    ∷ put
    ∷ acceptor_test
    ∷ work 0 test
    ∷ []

abbrev left_behind : Server
left_behind = record {
  capacity = 4;
  stopping = true;
  listening = false;
  accepted = 1;
  waiting = 0 ∷ [];
  active = [];
  acceptor = ended;
  workers = gone ∷ [];
  stop = returned;
  released = [];
  shut = [];
}

-- All threads have ended and `stop` has returned, and the client in the queue was never closed.
late_client : follow late_actions (some (started 1)) ≡ some left_behind
unfolding perform test_acceptor accept_client put_client move_worker drain stop_next started
    capacity_of
late_client = refl

-- A server with one worker whose acceptor has tested the flag.
abbrev accepting : Server
accepting = record (started 1) { acceptor = accepts }

accepting_next : perform acceptor_test (started 1) ≡ some accepting
unfolding perform test_acceptor started
accepting_next = refl

abbrev holding : Server
holding = record accepting { acceptor = holds 0; accepted = 1 }

holding_next : perform accept accepting ≡ some holding
unfolding perform accept_client started
holding_next = refl

Reached-IsSound_example : IsSound 1 holding
Reached-IsSound_example =
    Reached-IsSound 1 holding (after accept (after acceptor_test start accepting_next) holding_next)
