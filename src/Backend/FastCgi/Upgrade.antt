-- ===== src/Backend/FastCgi/Upgrade.antt =====
-- The echo of `_fcgi_respond`, which goes into one record.
use lighttpd_fuzz.Base.{
  ℕ, ◌<◌, [], ◌∷◌, ◌++◌, ◌≡◌, refl, Bool, true, false, length, length-append, length-take, take,
  ltb, ok, err, value_error, arith,
}
use lighttpd_fuzz.Base.Bytes.{Bytes, codes}
use lighttpd_fuzz.Base.Text.{Text}
use lighttpd_fuzz.Backend.Plan.{Response, headers_block, response_plan, mode_plan, max_request}
use lighttpd_fuzz.Backend.Socket.{Connection}
use lighttpd_fuzz.Backend.FastCgi.Params.{response_wire}
use lighttpd_fuzz.Backend.FastCgi.Handler.{fcgi_respond}
use lighttpd_fuzz.Backend.FastCgi.Records.{fcgi_record_long}

abbrev upgrade_headers : Bytes
upgrade_headers =
    headers_block (codes "101 Switching Protocols")
      ((codes "Connection", codes "Upgrade") ∷ (codes "Upgrade", codes "backend-echo") ∷ []) false

abbrev upgrade_response : Bytes → Response
upgrade_response received = record {
  content = upgrade_headers ++ take max_request received;
  short_writes = false;
  close_early = false;
  upgrade = true;
}

response_plan-upgrade :
    (received : Bytes)
    → response_plan (codes "upgrade") false received ≡ ok (upgrade_response received)
unfolding response_plan mode_plan lighttpd_fuzz.Backend.Modes.canonical_mode
    lighttpd_fuzz.Backend.Modes.known_or_normal lighttpd_fuzz.Backend.Modes.mode_value
    lighttpd_fuzz.Base.Text.strip lighttpd_fuzz.Base.Text.is_space lighttpd_fuzz.Base.Text.lower
    lighttpd_fuzz.Base.Text.dash lighttpd_fuzz.Base.Text.elem lighttpd_fuzz.Base.Text.get
response_plan-upgrade received = refl

long_tail : (front tail : Bytes) → 0xffff < length tail → ltb 0xffff (length (front ++ tail)) ≡ true
long_tail front tail h = let n = length-append front tail in ground arith

take_is_long :
    (received : Bytes) → 0xffff < length received → 0xffff < length (take max_request received)
take_is_long received h = omega (arith, length-take max_request received)

-- In the mode "upgrade" a body of more than 65535 bytes is not echoed: `_fcgi_respond` raises the error
-- on a record that is too large, and nothing is sent.
pub fcgi_respond-long_body :
    (request_id : ℕ) (received : Bytes) (keep_connection : Bool) (c : Connection)
    → 0xffff < length received
    → fcgi_respond request_id (codes "upgrade") received keep_connection c
      ≡ (err (value_error "FastCGI record too large"), c)
unfolding fcgi_respond response_wire
fcgi_respond-long_body i received keep c h =
    rw
      (
        response_plan-upgrade received,
        fcgi_record_long 6 i _
            (long_tail upgrade_headers (take max_request received) (take_is_long received h)),
      )
      refl
