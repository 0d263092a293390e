-- ===== src/Backend/FastCgi/Isolation.antt =====
-- A record that `handle_fastcgi` handles changes its own request alone.
use lighttpd_fuzz.Base.{
  ℕ, [], ◌∷◌, ◌≡◌, ◌≢◌, refl, ap, ◌∙◌, Bool, false, ◌==◌, if◌then◌else◌, Bool-cases, inl, inr,
  Option, some, ok, arith,
}
use lighttpd_fuzz.Base.Text.{Text}
use lighttpd_fuzz.Backend.Modes.{Url}
use lighttpd_fuzz.Backend.Socket.{Connection}
use lighttpd_fuzz.Backend.FastCgi.Requests.{
  Request, Requests, find_request, pop_request, set_request,
}
use lighttpd_fuzz.Backend.FastCgi.Handler.{Record, handle_record}
use lighttpd_fuzz.Backend.FastCgi.Change.{sets, pops, same, handle_record-Change}

find-pop_other :
    (k j : ℕ) (requests : Requests)
    → k ≢ j
    → find_request j (pop_request k requests) ≡ find_request j requests
find-pop_other k j [] n = refl
find-pop_other k j ((i, r) ∷ rest) n = elim (Bool-cases (i == k)) [
  | inl here ↦
      let other : (i == j) ≡ false = ground arith in rw (here, other) (find-pop_other k j rest n)
  | inr away ↦ rw away (ap (λ t. if i == j then some r else t) (find-pop_other k j rest n))
]

find-set_other :
    (k j : ℕ) (state : Request) (requests : Requests)
    → k ≢ j
    → find_request j (set_request k state requests) ≡ find_request j requests
unfolding set_request
find-set_other k j state requests n =
    let other : (k == j) ≡ false = ground arith in rw other (find-pop_other k j requests n)

-- Requests are kept apart: if `handle_record` returns, what is known of every request but the one that
-- the record names is as it was.
pub handle_record-find_other :
    (parse : Text → Option Url) (max_request : ℕ) (r : Record) (requests : Requests)
    (c : Connection) (done : Bool) (after : Requests) (c' : Connection) (j : ℕ)
    → handle_record parse max_request r requests c ≡ (ok (done, after), c')
    → r.request_id ≢ j
    → find_request j after ≡ find_request j requests
handle_record-find_other parse m r requests c done after c' j e n =
    elim (handle_record-Change parse m r requests c e) [
      | sets state q k ↦ ap (find_request j) q ∙ find-set_other r.request_id j state requests n
      | pops q ↦ ap (find_request j) q ∙ find-pop_other r.request_id j requests n
      | same q ↦ ap (find_request j) q
    ]
