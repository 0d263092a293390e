-- ===== src/Backend/FastCgi/Handler.antt =====
-- `handle_fastcgi` of backend-responder.py: in each round of its loop a record is read and handled.
use lighttpd_fuzz.Base.{
  diverged, length, true, zero, suc, ℕ, [], ◌∷◌, Bool, false, not, ◌==◌, ◌||◌, if◌then◌else◌,
  Option, none, some, Result, ok, err, value_error, index_error, raise_if,
}
use lighttpd_fuzz.Base.Bytes.{Bytes, from_bytes}
use lighttpd_fuzz.Base.Text.{Text}
use lighttpd_fuzz.Backend.Modes.{Url, select_mode}
use lighttpd_fuzz.Backend.Plan.{response_plan}
use lighttpd_fuzz.Backend.Socket.{Conn, recv_exact, send_response, lift, pure, raise, ◌>>=◌, ◌>>◌}
use lighttpd_fuzz.Backend.Socket.Stream.{stream}
use lighttpd_fuzz.Backend.FastCgi.Params.{response_wire}
use lighttpd_fuzz.Backend.FastCgi.Requests.{
  Request, Requests, find_request, pop_request, set_request, begin_request, params_record,
  body_record,
}

pub record Header : Type 0 where
  pub version : ℕ
  pub header_type : ℕ
  pub header_id : ℕ
  pub content_length : ℕ
  pub padding_length : ℕ

pub record Record : Type 0 where
  pub record_type : ℕ
  pub request_id : ℕ
  pub content : Bytes

-- The indices and slices of the header's eight bytes.
unfoldable pub read_header : Bytes → Result Header
read_header (v ∷ t ∷ i₁ ∷ i₀ ∷ n₁ ∷ n₀ ∷ p ∷ rest) = ok (record {
  version = v;
  header_type = t;
  header_id = from_bytes (i₁ ∷ i₀ ∷ []);
  content_length = from_bytes (n₁ ∷ n₀ ∷ []);
  padding_length = p;
})
read_header _ = err index_error

-- The `_recv_exact` of the content, and of the padding.
unfoldable pub recv_some : ℕ → Conn Bytes
recv_some size = if size == 0 then pure [] else recv_exact size

unfoldable pub recv_record : Conn Record
recv_record = do
  head ← recv_exact 8
  h ← lift (read_header head)
  lift
      (raise_if (not (h.version == 1) || (h.header_id == 0)) (value_error "invalid FastCGI record"))
  content ← recv_some h.content_length
  _ ← recv_some h.padding_length
  pure (record { record_type = h.header_type; request_id = h.header_id; content = content })

-- `_fcgi_respond`
unfoldable pub fcgi_respond : ℕ → Text → Bytes → Bool → Conn Bool
fcgi_respond request_id mode received keep_connection = do
  response ← lift (response_plan mode false received)
  wire ← lift (response_wire request_id response.content response.close_early)
  send_response wire response.short_writes
  pure (response.close_early || not keep_connection)

unfoldable pub begin_record : Record → Requests → Conn (Bool × Requests)
begin_record r requests = do
  requests' ← lift (begin_request r.request_id r.content requests)
  pure (false, requests')

module _ (parse : Text → Option Url) (max_request : ℕ) where
  -- The empty stdin record, which has the request answered.
  unfoldable pub end_of_body : ℕ → Request → Requests → Conn (Bool × Requests)
  end_of_body request_id state requests = do
    close ←
        fcgi_respond request_id (select_mode parse state.uri state.headers) state.received
          state.keeps
    pure (close, pop_request request_id requests)

  unfoldable pub stdin_record : ℕ → Bytes → Request → Requests → Conn (Bool × Requests)
  stdin_record request_id [] state requests = end_of_body request_id state requests
  stdin_record request_id (b ∷ bs) state requests = do
    state' ← lift (body_record max_request (b ∷ bs) state)
    pure (false, set_request request_id state' requests)

  unfoldable pub params_stream_record : ℕ → Bytes → Request → Requests → Conn (Bool × Requests)
  params_stream_record request_id content state requests = do
    state' ← lift (params_record max_request content state)
    pure (false, set_request request_id state' requests)

  -- A record of a request that has begun.
  unfoldable pub request_record : Record → Request → Requests → Conn (Bool × Requests)
  request_record r state requests =
      if r.record_type == 4
      then params_stream_record r.request_id r.content state requests
      else if r.record_type == 5
      then stdin_record r.request_id r.content state requests
      else if r.record_type == 2
      then pure (false, pop_request r.request_id requests)
      else pure (false, requests)

  abbrev pub begun_record : Record → Requests → Option Request → Conn (Bool × Requests)
  begun_record r requests none = raise (value_error "FastCGI record without begin request")
  begun_record r requests (some state) = request_record r state requests

  -- What a round does with the record that it has read: `true` is `return True`.
  unfoldable pub handle_record : Record → Requests → Conn (Bool × Requests)
  handle_record r requests =
      if r.record_type == 1
      then begin_record r requests
      else begun_record r requests (find_request r.request_id requests)

  unfoldable pub handle_fastcgi_round : Requests → Conn (Bool × Requests)
  handle_fastcgi_round requests = do r ← recv_record; handle_record r requests

  -- `while True`: every round that goes on takes eight bytes at least from the stream.
  unfoldable pub fastcgi_loop : ℕ → Requests → Conn Bool
  fastcgi_loop zero requests = raise diverged
  fastcgi_loop (suc fuel) requests = do
    (done, requests') ← handle_fastcgi_round requests
    elim done [ true ↦ pure true | false ↦ fastcgi_loop fuel requests' ]

  -- One round more than the stream has bytes is enough.
  unfoldable pub handle_fastcgi : Conn Bool
  handle_fastcgi c = fastcgi_loop (suc (length (stream c.incoming))) [] c
