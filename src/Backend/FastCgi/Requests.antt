-- ===== src/Backend/FastCgi/Requests.antt =====
-- The requests that `handle_fastcgi` of backend-responder.py has begun, and the records that change
-- them without the connection: begin request, params, stdin with content, abort.
use lighttpd_fuzz.Base.{
  ℕ, ◌+◌, List, [], ◌∷◌, ◌++◌, Bool, true, false, not, ltb, ◌==◌, ◌||◌, bit_and, if◌then◌else◌,
  length, take, drop, map, Option, none, some, Result, ok, value_error, raise_if, ◌>>=◌, ◌>>◌,
}
use lighttpd_fuzz.Base.Bytes.{Bytes, from_bytes, codes}
use lighttpd_fuzz.Base.Text.{Text, lower, dash, get, put, starts_with}
use lighttpd_fuzz.Backend.Modes.{get_default}
use lighttpd_fuzz.Backend.FastCgi.Params.{fcgi_params}

pub record Request : Type 0 where
  pub params : Bytes
  pub received : Bytes
  pub headers : List (Text × Text)
  pub uri : Text
  pub keeps : Bool

-- The dictionary `requests`; the last entry comes first.
abbrev pub Requests : Type 0
Requests = List (ℕ × Request)

abbrev pub find_request : ℕ → Requests → Option Request
find_request k [] = none
find_request k ((j, request) ∷ rest) = if j == k then some request else find_request k rest

-- `requests.pop(request_id, None)`
abbrev pub pop_request : ℕ → Requests → Requests
pop_request k [] = []
pop_request k ((j, request) ∷ rest) =
    if j == k then pop_request k rest else (j, request) ∷ pop_request k rest

-- An entry for an identifier replaces the one before it.
unfoldable pub set_request : ℕ → Request → Requests → Requests
set_request k request requests = (k, request) ∷ pop_request k requests

abbrev pub is_some {ℓ} : {A : Type ℓ} → Option A → Bool
is_some none = false
is_some (some a) = true

-- `state` of a request that begins.
unfoldable pub new_request : Bytes → Request
new_request content = record {
  params = [];
  received = [];
  headers = [];
  uri = codes "/";
  keeps = not (bit_and (from_bytes (take 1 (drop 2 content))) 1 == 0);
}

unfoldable pub begin_request : ℕ → Bytes → Requests → Result Requests
begin_request request_id content requests = do
  raise_if (not (length content == 8) || is_some (find_request request_id requests))
      (value_error "invalid FastCGI begin request")
  ok (set_request request_id (new_request content) requests)

-- The comprehension that makes `state["headers"]`, over what it has made so far.
unfoldable pub http_headers : List (Text × Bytes) → List (Text × Text) → List (Text × Text)
http_headers [] headers = headers
http_headers ((key, value) ∷ rest) headers = http_headers rest (
    if starts_with key (codes "HTTP_")
    then put (map dash (map lower (drop 5 key))) value headers
    else headers)

-- A params record: content is kept, and the empty record ends the stream and has it read.
unfoldable pub params_record : ℕ → Bytes → Request → Result Request
params_record max_request [] state = do
  params ← fcgi_params state.params
  ok (record state {
    uri = get_default (get (codes "REQUEST_URI") params) (codes "/");
    headers = http_headers params [];
  })
params_record max_request (b ∷ bs) state = do
  raise_if (ltb max_request (length state.params + length (b ∷ bs)))
      (value_error "FastCGI params too large")
  ok (record state { params = state.params ++ b ∷ bs })

-- A stdin record with content.
unfoldable pub body_record : ℕ → Bytes → Request → Result Request
body_record max_request content state = do
  raise_if (ltb max_request (length state.received + length content))
      (value_error "FastCGI body too large")
  ok (record state { received = state.received ++ content })
