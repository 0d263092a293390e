-- ===== src/Backend/FastCgi/Answers.antt =====
-- A request of FastCGI is answered.
use lighttpd_fuzz.Base.{if◌then◌else◌, replicate, ℕ, List, [], ◌++◌, Option}
use lighttpd_fuzz.Base.Bytes.{Bytes, codes}
use lighttpd_fuzz.Base.Text.{Text, get}
use lighttpd_fuzz.Backend.Modes.{Url, get_default}
use lighttpd_fuzz.Backend.Plan.{Response}
use lighttpd_fuzz.Backend.FastCgi.Request.{record_bytes, begin_bytes}
use lighttpd_fuzz.Backend.FastCgi.Requests.{Request, Requests, new_request, http_headers}

-- The records that carry a response: its content, and unless the connection is closed early the end of the
-- output and the end of the request.
unfoldable pub answer_bytes : ℕ → Response → Bytes
answer_bytes k response =
    record_bytes 6 k response.content
    ++ (if response.close_early
        then []
        else record_bytes 6 k [] ++ record_bytes 3 k (replicate 8 0))

module _ (parse : Text → Option Url) (max_request : ℕ) where
  -- The state of a request whose records have been read.
  abbrev request_read : ℕ → List (Text × Bytes) → Bytes → Bytes → Request
  request_read flags params block received = record (new_request (begin_bytes flags)) {
    params = block;
    received = received;
    uri = get_default (get (codes "REQUEST_URI") params) (codes "/");
    headers = http_headers params [];
  }
