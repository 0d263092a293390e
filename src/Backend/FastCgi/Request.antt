-- ===== src/Backend/FastCgi/Request.antt =====
-- A whole request of FastCGI, and the rounds of `handle_fastcgi` that read it.
use lighttpd_fuzz.Base.{
  ℕ, zero, suc, ◌+◌, ◌≤◌, ◌<◌, List, [], ◌∷◌, ◌++◌, ◌≡◌, refl, ap, ◌∙◌, true, false, ltb, ◌==◌,
  length, length-append, ok, arith, Option,
}
use lighttpd_fuzz.Base.Bytes.{Bytes, codes}
use lighttpd_fuzz.Base.Text.{Text, get}
use lighttpd_fuzz.Backend.Modes.{Url, get_default}
use lighttpd_fuzz.Backend.Socket.{Connection, Arrival}
use lighttpd_fuzz.Backend.Socket.Stream.{stream, Leaves}
use lighttpd_fuzz.Backend.Socket.Uses.{left}
use lighttpd_fuzz.Backend.FastCgi.Params.{fcgi_params, fcgi_record}
use lighttpd_fuzz.Backend.FastCgi.Records.{header_bytes, fcgi_record_iff, recv_record-fcgi_record}
use lighttpd_fuzz.Backend.FastCgi.Requests.{
  Request, Requests, new_request, begin_request, set_request, params_record, body_record,
  http_headers,
}
use lighttpd_fuzz.Backend.FastCgi.Handler.{
  handle_record, begin_record, request_record, params_stream_record, stdin_record,
  handle_fastcgi_round, fastcgi_loop,
}

-- A record: its header, and its content without padding.
unfoldable pub record_bytes : ℕ → ℕ → Bytes → Bytes
record_bytes record_type k content = header_bytes record_type k (length content) ++ content

-- What a client writes in the role of a responder, with the flags of the request, to begin it.
abbrev pub begin_bytes : ℕ → Bytes
begin_bytes flags = 0 ∷ 1 ∷ flags ∷ 0 ∷ 0 ∷ 0 ∷ 0 ∷ 0 ∷ []

-- A request: its beginning, its parameters and its body, each of these with an empty record at its end.
unfoldable pub request_bytes : ℕ → ℕ → Bytes → Bytes → Bytes → Bytes
request_bytes k flags params body later =
    record_bytes 1 k (begin_bytes flags)
    ++ (record_bytes 4 k params
        ++ (record_bytes 4 k [] ++ (record_bytes 5 k body ++ (record_bytes 5 k [] ++ later))))

pub length-record_bytes :
    (t k : ℕ) (content : Bytes) → length (record_bytes t k content) ≡ 8 + length content
unfolding record_bytes header_bytes
length-record_bytes t k content = omega arith

pub fcgi_record-record_bytes :
    (t k : ℕ) (content : Bytes)
    → t < 256
    → k < 65536
    → length content < 65536
    → fcgi_record t k content ≡ ok (record_bytes t k content)
unfolding record_bytes
fcgi_record-record_bytes t k content a b c = (fcgi_record_iff t k content _).1 (a, b, c, refl)

module _ (parse : Text → Option Url) (max_request : ℕ) where
  -- A round that goes on, when the record at hand makes `requests` to `later_requests`.
  pub record GoesOn (fuel : ℕ) (requests after : Requests) (c : Connection) (later : Bytes)
      : Type 0 where
    pub rest : List Arrival
    pub fuel_left : ℕ
    pub runs :
        fastcgi_loop parse max_request fuel requests c
        ≡ fastcgi_loop parse max_request fuel_left after (record c { incoming = rest })
    pub leaves : Leaves c.incoming rest later
    pub enough : length later < fuel_left

  pub loop-GoesOn :
      (fuel t k : ℕ) (content later : Bytes) (requests after : Requests) (c : Connection)
      → left c < fuel
      → t < 256
      → 1 ≤ k
      → k < 65536
      → length content < 65536
      → stream c.incoming ≡ record_bytes t k content ++ later
      → ((c : Connection)
          → handle_record parse max_request
              (record { record_type = t; request_id = k; content = content })
              requests
              c
            ≡ (ok (false, after), c))
      → GoesOn fuel requests after c later
  unfolding fastcgi_loop handle_fastcgi_round
  loop-GoesOn zero t k content later requests after c f a b d g e h = absurd (omega arith)
  loop-GoesOn (suc fuel) t k content later requests after c f a b d g e h =
      let made = fcgi_record-record_bytes t k content a d g in
      let (rest, run, leaves) =
        recv_record-fcgi_record t k content (record_bytes t k content) later c made b e in
      record {
        rest = rest;
        fuel_left = fuel;
        runs = rw (run, h (record c { incoming = rest })) refl;
        leaves = leaves;
        enough = omega (
          arith,
          ap (λ (x : Bytes). length x) e,
          length-append (record_bytes t k content) later,
          length-record_bytes t k content,
        );
      }

  -- From every connection whose stream is `stream_before` some rounds lead to one where it is `later`.
  abbrev pub Leads : Requests → Bytes → Requests → Bytes → Type 0
  Leads requests stream_before after later =
      (fuel : ℕ) (c : Connection)
      → left c < fuel
      → stream c.incoming ≡ stream_before
      → GoesOn fuel requests after c later

  pub Leads-trans :
      (a b d : Requests) (x y z : Bytes) → Leads a x b y → Leads b y d z → Leads a x d z
  Leads-trans a b d x y z first second fuel c f e =
      let r = first fuel c f e in
      let q =
        second r.fuel_left (record c { incoming = r.rest })
          (omega (arith, r.enough, ap (λ (x : Bytes). length x) r.leaves.streams))
          r.leaves.streams in
      record {
        rest = q.rest;
        fuel_left = q.fuel_left;
        runs = r.runs ∙ q.runs;
        leaves = record { streams = q.leaves.streams; ends = q.leaves.ends ∙ r.leaves.ends };
        enough = q.enough;
      }

  -- The four records of a request before the last one.
  pub begins :
      (k flags : ℕ) (c : Connection)
      → handle_record parse max_request
          (record { record_type = 1; request_id = k; content = begin_bytes flags })
          []
          c
        ≡ (ok (false, (k, new_request (begin_bytes flags)) ∷ []), c)
  unfolding handle_record begin_record begin_request set_request
  begins k flags c = refl

  module _ (k : ℕ) (state : Request) (c : Connection) where
    pub self : (k == k) ≡ true
    self = ground arith

    only : (next : Request) → set_request k next ((k, state) ∷ []) ≡ (k, next) ∷ []
    unfolding set_request
    only next = rw self refl

    pub adds_params :
        (b : ℕ) (bs : Bytes)
        → length state.params + length (b ∷ bs) ≤ max_request
        → handle_record parse max_request
            (record { record_type = 4; request_id = k; content = b ∷ bs })
            ((k, state) ∷ [])
            c
          ≡ (ok (false, (k, record state { params = state.params ++ b ∷ bs }) ∷ []), c)
    unfolding handle_record request_record params_stream_record params_record set_request
    adds_params b bs h =
        let fits : ltb max_request (length state.params + length (b ∷ bs)) ≡ false = ground arith in
        rw (self, fits) (ap (λ (t : Requests). (ok (false, t), c)) (only _))

    pub ends_params :
        (params : List (Text × Bytes))
        → fcgi_params state.params ≡ ok params
        → handle_record parse max_request
            (record { record_type = 4; request_id = k; content = [] })
            ((k, state) ∷ [])
            c
          ≡ (
            ok (
              false,
              (
                k,
                record state {
                  uri = get_default (get (codes "REQUEST_URI") params) (codes "/");
                  headers = http_headers params [];
                },
              )
                  ∷ [],
            ),
            c,
          )
    unfolding handle_record request_record params_stream_record params_record set_request
    ends_params params e = rw (self, e) (ap (λ (t : Requests). (ok (false, t), c)) (only _))

    pub adds_body :
        (b : ℕ) (bs : Bytes)
        → length state.received + length (b ∷ bs) ≤ max_request
        → handle_record parse max_request
            (record { record_type = 5; request_id = k; content = b ∷ bs })
            ((k, state) ∷ [])
            c
          ≡ (ok (false, (k, record state { received = state.received ++ b ∷ bs }) ∷ []), c)
    unfolding handle_record request_record stdin_record body_record set_request
    adds_body b bs h =
        let fits : ltb max_request (length state.received + length (b ∷ bs)) ≡ false =
          ground arith in
        rw (self, fits) (ap (λ (t : Requests). (ok (false, t), c)) (only _))
