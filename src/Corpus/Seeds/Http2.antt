-- ===== src/Corpus/Seeds/Http2.antt =====
-- The seeds of normalize-corpus-flags.py: connections of HTTP/2.
use lighttpd_fuzz.Base.{
  List, [], ◌∷◌, ◌++◌, map, take, drop, length, ok, Result, ℕ, true, false, ◌/◌, ◌>>=◌,
}
use lighttpd_fuzz.Base.Bytes.{Bytes, codes}
use lighttpd_fuzz.Corpus.Seeds.Build.{joined}
use lighttpd_fuzz.Corpus.Http2.{
  h2_frame, h2_request_headers, h2_extended_connect_headers, hpack_literal_name,
}
use lighttpd_fuzz.Corpus.Seeds.Backends.{backend_response_modes, wstunnel_backend_frame}

abbrev pub h2_connection_preface : Bytes
h2_connection_preface = codes "PRI * HTTP/2.0\r\n\r\nSM\r\n\r\n"

abbrev pub h2_settings : Result Bytes
h2_settings = h2_frame 0x4 0 0 []

abbrev pub h2_preface : Result Bytes
h2_preface = joined (ok h2_connection_preface ∷ h2_settings ∷ [])

abbrev pub h2_get_root : Result Bytes
h2_get_root = joined (h2_preface ∷ h2_request_headers (codes "GET") (codes "/") true [] 1 ∷ [])

abbrev pub h2_get_status : Result Bytes
h2_get_status =
    joined (h2_preface ∷ h2_request_headers (codes "GET") (codes "/server-status") true [] 1 ∷ [])

abbrev pub h2_control_frames : Result Bytes
h2_control_frames = joined (
    h2_preface
    ∷ h2_frame 0x4 0 0 (0 ∷ 1 ∷ 0 ∷ 0 ∷ 0 ∷ 0 ∷ [])
    ∷ h2_frame 0x6 0 0 (codes "fuzzping")
    ∷ h2_frame 0x8 0 0 (0 ∷ 0 ∷ 16 ∷ 0 ∷ [])
    ∷ h2_request_headers (codes "GET") (codes "/") true [] 1
    ∷ [])

abbrev pub h2_put_headers : Result Bytes
h2_put_headers = h2_request_headers (codes "PUT") (codes "/dav/h2.txt") false [] 1

abbrev pub h2_put : Result Bytes
h2_put = joined (h2_preface ∷ h2_put_headers ∷ h2_frame 0 0x1 1 (codes "seed") ∷ [])

abbrev pub h2_get_cgi : Result Bytes
h2_get_cgi = joined (
    h2_preface
    ∷ h2_request_headers (codes "GET") (codes "/cgi/echo.cgi?normal") true
        ((codes "accept-encoding", codes "gzip") ∷ []) 1
    ∷ [])

abbrev pub h2_get_proxy : Result Bytes
h2_get_proxy = joined (
    h2_preface
    ∷ h2_request_headers (codes "GET") (codes "/h2-proxy/files/index.txt") true [] 1
    ∷ [])

abbrev pub h2_get_normalized : Result Bytes
h2_get_normalized =
    joined
      (h2_preface ∷ h2_request_headers (codes "GET") (codes "/files/%69ndex.txt") true [] 1 ∷ [])

abbrev pub h2_backend_proxy_requests : List (Result Bytes)
h2_backend_proxy_requests =
    map
      (λ mode.
        joined (
          h2_preface
          ∷ h2_request_headers (codes "GET") (codes "/h2-proxy/" ++ mode) true [] 1
          ∷ []))
      backend_response_modes

abbrev pub h2_backend_fastcgi_requests : List (Result Bytes)
h2_backend_fastcgi_requests =
    map
      (λ mode. joined (
        h2_preface
        ∷ h2_request_headers (codes "GET") (codes "/h2-fastcgi/" ++ mode) true [] 1
        ∷ []))
      backend_response_modes

abbrev pub h2_backend_scgi_requests : List (Result Bytes)
h2_backend_scgi_requests =
    map
      (λ mode.
        joined (
          h2_preface ∷ h2_request_headers (codes "GET") (codes "/h2-scgi/" ++ mode) true [] 1 ∷ []))
      backend_response_modes

abbrev pub h2_split_headers : Result Bytes
h2_split_headers = do
  request ← h2_request_headers (codes "GET") (codes "/listing/?json") true [] 1
  ok (drop 9 request)

abbrev pub h2_split_at : Result ℕ
h2_split_at = do headers ← h2_split_headers; ok (length headers / 2)

abbrev pub h2_continuation : Result Bytes
h2_continuation = joined (
    h2_preface
    ∷ (do headers ← h2_split_headers; n ← h2_split_at; h2_frame 0x01 0x01 1 (take n headers))
    ∷ (do headers ← h2_split_headers; n ← h2_split_at; h2_frame 0x09 0x04 1 (drop n headers))
    ∷ [])

abbrev pub h2_lifecycle_frames : Result Bytes
h2_lifecycle_frames = joined (
    h2_preface
    ∷ h2_frame 0x2 0 3 (0 ∷ 0 ∷ 0 ∷ 0 ∷ 16 ∷ [])
    ∷ h2_request_headers (codes "GET") (codes "/") false [] 1
    ∷ h2_frame 0x3 0 1 (0 ∷ 0 ∷ 0 ∷ 8 ∷ [])
    ∷ h2_frame 0x7 0 0 (0 ∷ 0 ∷ 0 ∷ 1 ∷ 0 ∷ 0 ∷ 0 ∷ 0 ∷ [])
    ∷ [])

abbrev pub h2_multi_stream : Result Bytes
h2_multi_stream = joined (
    h2_preface
    ∷ h2_request_headers (codes "GET") (codes "/files/index.txt") true [] 1
    ∷ h2_request_headers (codes "GET") (codes "/server-status?auto") true [] 3
    ∷ h2_request_headers (codes "HEAD") (codes "/listing/") true [] 5
    ∷ [])

abbrev pub h2_expect_headers : Result Bytes
h2_expect_headers = joined (
    h2_preface
    ∷ h2_request_headers (codes "POST") (codes "/cgi/echo.cgi?normal") false
        ((codes "content-length", codes "4") ∷ (codes "expect", codes "100-continue") ∷ []) 1
    ∷ [])

abbrev pub h2_expect_data : Result Bytes
h2_expect_data = h2_frame 0 0x1 1 (codes "seed")

abbrev pub h2_expect_continue : Result Bytes
h2_expect_continue = joined (h2_expect_headers ∷ h2_expect_data ∷ [])

abbrev pub h2_request_trailers : Result Bytes
h2_request_trailers = joined (
    h2_preface
    ∷ h2_request_headers (codes "POST") (codes "/cgi/echo.cgi?stream") false
        ((codes "te", codes "trailers") ∷ []) 1
    ∷ h2_frame 0 0 1 (codes "seed")
    ∷ (do
      payload ← hpack_literal_name (codes "test-trailer") (codes "finished")
      h2_frame 0x1 0x5 1 payload)
    ∷ [])

abbrev pub h2_padded_data : Result Bytes
h2_padded_data = joined (
    h2_preface
    ∷ h2_request_headers (codes "POST") (codes "/cgi/echo.cgi?normal") false
        ((codes "content-length", codes "4") ∷ []) 1
    ∷ h2_frame 0 0x9 1 ((2 ∷ []) ++ codes "seed" ++ (0 ∷ 0 ∷ []))
    ∷ [])

abbrev pub h2_wstunnel_headers : Result Bytes
h2_wstunnel_headers = joined (h2_preface ∷ h2_extended_connect_headers (codes "/h2-ws/") 1 ∷ [])

abbrev pub h2_wstunnel_data : Result Bytes
h2_wstunnel_data = (do payload ← wstunnel_backend_frame; h2_frame 0 0 1 payload)

abbrev pub h2_wstunnel_request : Result Bytes
h2_wstunnel_request = joined (h2_wstunnel_headers ∷ h2_wstunnel_data ∷ [])

abbrev pub h2_auth_webdav_put : Result Bytes
h2_auth_webdav_put = joined (
    h2_preface
    ∷ h2_request_headers (codes "PUT") (codes "/dav/h2-auth.txt") false
        ((codes "authorization", codes "Basic ZnV6ejpmdXp6")
          ∷ (codes "content-length", codes "4")
          ∷ [])
        1
    ∷ h2_frame 0 0x1 1 (codes "seed")
    ∷ [])

abbrev pub h2_static_cache_requests : List (Result Bytes)
h2_static_cache_requests =
    joined (
      h2_preface
      ∷ h2_request_headers (codes "GET") (codes "/files/large.txt") true
          ((codes "range", codes "bytes=0-31") ∷ (codes "accept-encoding", codes "gzip") ∷ []) 1
      ∷ [])
    ∷ joined (
        h2_preface
        ∷ h2_request_headers (codes "GET") (codes "/files/large.txt") true
            ((codes "if-none-match", codes "*") ∷ []) 1
        ∷ [])
    ∷ joined (h2_preface ∷ h2_request_headers (codes "GET") (codes "/listing/?json") true [] 1 ∷ [])
    ∷ []
