-- ===== src/Backend/Body.antt =====
-- The length of a body, as the HTTP and the SCGI handler of backend-responder.py read it.
use lighttpd_fuzz.Base.{ℕ, Bool, not, ◌&&◌, ◌||◌, ltb, ◌==◌}
use lighttpd_fuzz.Base.Text.Int.{Signed}

-- `content_length < 0 or content_length > max_request`
unfoldable pub bad_length : ℕ → Signed → Bool
bad_length max_request (negative, size) = (negative && not (size == 0)) || ltb max_request size
