-- ===== src/Backend/FastCgi.antt =====
-- FastCGI in backend-responder.py: `_fcgi_length`, `_fcgi_params`, `fcgi_record`, `_fcgi_respond` and
-- `handle_fastcgi`.
pub mod Params
pub mod RoundTrip
pub mod Requests
pub mod Handler
pub mod Change
pub mod Bounds
pub mod Isolation
pub mod Records
pub mod Raised
pub mod Ends
pub mod Answers
pub mod Request
pub mod Upgrade
