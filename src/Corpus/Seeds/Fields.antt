-- ===== src/Corpus/Seeds/Fields.antt =====
-- The seeds of normalize-corpus-flags.py: requests with many or unusual fields.
use lighttpd_fuzz.Base.{List, [], ◌∷◌, ◌++◌, map, concat, range, ok, Result, ◌>>=◌}
use lighttpd_fuzz.Base.Bytes.{Bytes, codes}
use lighttpd_fuzz.Corpus.Seeds.Build.{encoded_request, joined, sequence, base36_pair}

abbrev pub forwarded_chain_requests : List Bytes
forwarded_chain_requests =
    (codes "GET / HTTP/1.1\r\nHost: original.example\r\n"
      ++ codes "Forwarded: for=192.0.2.10;proto=https;host=forwarded.example, for=198."
      ++ codes "51.100.7\r\nConnection: close\r\n\r\n")
    ∷ (codes "GET / HTTP/1.1\r\nHost: localhost\r\n"
        ++ codes "X-Forwarded-For: 192.0.2.1, 198.51.100.2\r\nX-Real-IP: 203.0.113.9\r\n"
        ++ codes "Connection: close\r\n\r\n")
    ∷ []

abbrev pub forwarded_ipv6_request : Bytes
forwarded_ipv6_request =
    codes "GET /files/index.txt HTTP/1.1\r\nHost: original.example\r\n"
    ++ codes "Forwarded: for=\"[2001:db8::1]:1234\";by=_edge;proto=https;host=\"one.exa"
    ++ codes "mple:443\";remote_user=\"fuzz user\"\r\nConnection: close\r\n\r\n"

abbrev pub haproxy_v1_tcp6_forwarded : Bytes
haproxy_v1_tcp6_forwarded =
    codes "PROXY TCP6 2001:db8::10 2001:db8::20 12345 80\r\n" ++ forwarded_ipv6_request

abbrev pub accesslog_fields_request : Bytes
accesslog_fields_request =
    codes "GET /files/index.txt?access=log HTTP/1.1\r\nHost: access.example\r\n"
    ++ codes "User-Agent: FuzzAgent/1.0 "
    ++ (226 ∷ 152 ∷ 131 ∷ [])
    ++ codes "\r\nCookie: fuzz=a%20b; other=\"quoted\"\r\nConnection: keep-alive\r\n\r\n"

abbrev pub admin_requests : List Bytes
admin_requests =
    map (λ path. encoded_request path [])
      (codes "/admin/server-status?auto"
        ∷ codes "/admin/server-config"
        ∷ codes "/admin/server-statistics"
        ∷ [])

abbrev pub status_variant_requests : List Bytes
status_variant_requests =
    map (λ path. encoded_request path [])
      (codes "/server-status?json"
        ∷ codes "/server-status?jsonp=Fuzz_cb"
        ∷ codes "/server-status?jsonp=1bad"
        ∷ codes "/admin/server-status?json"
        ∷ codes "/admin/server-status?jsonp=Fuzz_cb"
        ∷ [])

abbrev pub stack_requests : List Bytes
stack_requests =
    encoded_request (codes "/stack-alias/index.txt") []
    ∷ encoded_request (codes "/stack-redirect") []
    ∷ encoded_request (codes "/stack-rewrite/files/index.txt") []
    ∷ encoded_request (codes "/ssi/raw.ssi") []
    ∷ []

abbrev pub ssi_edge_requests : List Bytes
ssi_edge_requests =
    encoded_request (codes "/ssi/index.shtml") []
    ∷ codes "HEAD /ssi/index.shtml HTTP/1.1\r\nHost: localhost\r\nConnection: close\r\n\r\n"
    ∷ encoded_request (codes "/ssi/include.shtml") []
    ∷ encoded_request (codes "/ssi/nested.shtml") []
    ∷ []

abbrev pub ssi_exec_request : Bytes
ssi_exec_request = encoded_request (codes "/ssi/exec.shtml") []

abbrev pub routing_interaction_requests : List Bytes
routing_interaction_requests =
    (codes "GET /route-alias/index.txt HTTP/1.1\r\nHost: routes.example\r\n"
      ++ codes "Connection: close\r\n\r\n")
    ∷ (codes "GET /route-rewrite/index.txt HTTP/1.1\r\nHost: routes.example\r\n"
        ++ codes "Connection: close\r\n\r\n")
    ∷ (codes "GET /route-redirect HTTP/1.1\r\nHost: routes.example\r\nConnection: close\r\n"
        ++ codes "\r\n")
    ∷ codes "GET /~fuzz/ HTTP/1.1\r\nHost: routes.example\r\nConnection: close\r\n\r\n"
    ∷ []

abbrev pub cgi_dense_headers : Result Bytes
cgi_dense_headers = do
  headers ←
      sequence
        (map (λ i. joined (ok (codes "X") ∷ base36_pair i ∷ ok (codes ":a\r\n") ∷ [])) (range 1050))
  ok (
      codes "GET /cgi/echo.cgi?normal HTTP/1.1\r\nHost: localhost\r\n"
      ++ (concat headers ++ codes "Connection: close\r\n\r\n"))

abbrev pub chunked_extension_request : Bytes
chunked_extension_request =
    codes "POST /cgi/echo.cgi?normal HTTP/1.1\r\nHost: localhost\r\n"
    ++ codes "Transfer-Encoding: chunked\r\nTrailer: Test-Trailer\r\nConnection: close\r\n"
    ++ codes "\r\n4;name=value\r\nseed\r\n3;quoted=\"yes\"\r\nxyz\r\n0\r\n"
    ++ codes "Test-Trailer: finished\r\n\r\n"
