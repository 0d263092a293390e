-- ===== src/Corpus/Seeds/Backends.antt =====
-- The seeds of normalize-corpus-flags.py: requests for the backends.
use lighttpd_fuzz.Base.{List, [], ◌∷◌, ◌++◌, map, Result}
use lighttpd_fuzz.Base.Bytes.{Bytes, codes}
use lighttpd_fuzz.Corpus.Seeds.Build.{encoded_request}
use lighttpd_fuzz.Corpus.WebSocket.{websocket_client_frame}

abbrev pub proxy_requests : List Bytes
proxy_requests =
    (codes "GET /proxy/files/index.txt HTTP/1.1\r\nHost: proxy.example\r\n"
      ++ codes "Forwarded: for=192.0.2.60;proto=https\r\nConnection: close\r\n\r\n")
    ∷ (codes "POST /proxy/cgi/echo.cgi?normal HTTP/1.1\r\nHost: proxy.example\r\n"
        ++ codes "Content-Length: 4\r\nConnection: close\r\n\r\nseed")
    ∷ (codes "GET /gateway/files/index.txt HTTP/1.1\r\nHost: gateway.example\r\n"
        ++ codes "Connection: close\r\n\r\n")
    ∷ (codes "GET /gateway/ws/ HTTP/1.1\r\nHost: gateway.example\r\nConnection: Upgrade\r\n"
        ++ codes "Upgrade: websocket\r\nSec-WebSocket-Version: 13\r\n"
        ++ codes "Sec-WebSocket-Key: MDEyMzQ1Njc4OWFiY2RlZg==\r\n\r\n")
    ∷ []

abbrev pub backend_response_modes : List Bytes
backend_response_modes =
    codes "normal"
    ∷ codes "chunked-trailers"
    ∷ codes "100"
    ∷ codes "103"
    ∷ codes "interim"
    ∷ codes "early-close"
    ∷ codes "malformed-headers"
    ∷ codes "truncated-headers"
    ∷ codes "malformed-chunk"
    ∷ codes "truncated-chunk"
    ∷ codes "redirect-cookie"
    ∷ codes "upgrade"
    ∷ codes "partial"
    ∷ []

abbrev pub backend_proxy_requests : List Bytes
backend_proxy_requests =
    map (λ mode. encoded_request (codes "/proxy/" ++ mode) (codes "X-Backend-Seed: proxy\r\n"))
      backend_response_modes

abbrev pub backend_gateway_requests : List Bytes
backend_gateway_requests =
    map (λ mode. encoded_request (codes "/gateway/" ++ mode) (codes "X-Backend-Seed: gateway\r\n"))
      backend_response_modes

abbrev pub legacy_proxy_requests : List Bytes
legacy_proxy_requests =
    map
      (λ mode.
        codes "GET /legacy-proxy/"
        ++ mode
        ++ codes " HTTP/1.1\r\nHost: legacy.example\r\nForwarded: for=192.0.2.44;proto=https\r\n"
        ++ codes "Connection: close\r\n\r\n")
      backend_response_modes

abbrev pub backend_fastcgi_requests : List Bytes
backend_fastcgi_requests =
    map (λ mode. encoded_request (codes "/fastcgi/" ++ mode) (codes "X-Backend-Seed: fastcgi\r\n"))
      backend_response_modes

abbrev pub backend_scgi_requests : List Bytes
backend_scgi_requests =
    map (λ mode. encoded_request (codes "/scgi/" ++ mode) (codes "X-Backend-Seed: scgi\r\n"))
      backend_response_modes

abbrev pub backend_fastcgi_post_headers : Bytes
backend_fastcgi_post_headers =
    codes "POST /fastcgi/normal HTTP/1.1\r\nHost: localhost\r\n"
    ++ codes "Content-Type: application/octet-stream\r\nContent-Length: 4\r\n"
    ++ codes "Connection: close\r\n\r\n"

abbrev pub backend_scgi_post_headers : Bytes
backend_scgi_post_headers =
    codes "POST /scgi/normal HTTP/1.1\r\nHost: localhost\r\n"
    ++ codes "Content-Type: application/octet-stream\r\nContent-Length: 4\r\n"
    ++ codes "Connection: close\r\n\r\n"

abbrev pub backend_upgrade_request : Bytes
backend_upgrade_request =
    codes "GET /proxy/upgrade HTTP/1.1\r\nHost: proxy.example\r\nConnection: Upgrade\r\n"
    ++ codes "Upgrade: backend-echo\r\n\r\n"

abbrev pub backend_gateway_upgrade_request : Bytes
backend_gateway_upgrade_request =
    codes "GET /gateway/upgrade HTTP/1.1\r\nHost: gateway.example\r\n"
    ++ codes "Connection: Upgrade\r\nUpgrade: backend-echo\r\n\r\n"

abbrev pub wstunnel_backend_request : Bytes
wstunnel_backend_request =
    codes "GET /normal HTTP/1.1\r\nHost: websocket-backend\r\nConnection: close\r\n\r\n"

abbrev pub wstunnel_backend_frame : Result Bytes
wstunnel_backend_frame = websocket_client_frame wstunnel_backend_request 2

abbrev pub backend_connect_tunnel_requests : List Bytes
backend_connect_tunnel_requests =
    codes "CONNECT :6501 HTTP/1.1\r\nHost: localhost\r\n\r\n"
    ∷ codes "GET /normal HTTP/1.1\r\nHost: tunneled.example\r\nConnection: close\r\n\r\n"
    ∷ []
