-- ===== src/Backend/FastCgi/Bounds.antt =====
-- The requests of `handle_fastcgi` stay within the limits.
use lighttpd_fuzz.Base.{ℕ, [], ◌∷◌, ◌≡◌, sym, Bool, ◌==◌, Bool-cases, inl, inr, Option, ok}
use mathlib.Core.Path.{subst}
use lighttpd_fuzz.Base.Text.{Text}
use lighttpd_fuzz.Backend.Modes.{Url}
use lighttpd_fuzz.Backend.Socket.{Connection}
use lighttpd_fuzz.Backend.FastCgi.Requests.{Requests, pop_request, set_request}
use lighttpd_fuzz.Backend.FastCgi.Handler.{Record, handle_record}
use lighttpd_fuzz.Backend.FastCgi.Change.{AreBounded, sets, pops, same, handle_record-Change}

pop-AreBounded :
    (max_request k : ℕ) (requests : Requests)
    → AreBounded max_request requests
    → AreBounded max_request (pop_request k requests)
pop-AreBounded m k [] h = h
pop-AreBounded m k ((j, r) ∷ rest) (h, hs) = elim (Bool-cases (j == k)) [
  | inl here ↦ rw here (pop-AreBounded m k rest hs)
  | inr other ↦ rw other (h, pop-AreBounded m k rest hs)
]

-- If `handle_record` returns, and the streams of all requests were within the limit before, they are
-- within the limit afterwards.
pub handle_record-AreBounded :
    (parse : Text → Option Url) (max_request : ℕ) (r : Record) (requests : Requests)
    (c : Connection) (done : Bool) (after : Requests) (c' : Connection)
    → handle_record parse max_request r requests c ≡ (ok (done, after), c')
    → AreBounded max_request requests
    → AreBounded max_request after
unfolding set_request
handle_record-AreBounded parse m r requests c done after c' e h =
    elim (handle_record-Change parse m r requests c e) [
      | sets state q k ↦
          subst (AreBounded m) (sym q) (k h, pop-AreBounded m r.request_id requests h)
      | pops q ↦ subst (AreBounded m) (sym q) (pop-AreBounded m r.request_id requests h)
      | same q ↦ subst (AreBounded m) (sym q) h
    ]
