-- ===== src/Corpus/Seeds/Tunnels.antt =====
-- The seeds of normalize-corpus-flags.py: malformed requests, upgrades and proxy headers.
use lighttpd_fuzz.Base.{[], ◌∷◌, ◌++◌, ◌+◌, replicate, length, ok, Result, ◌>>=◌}
use lighttpd_fuzz.Base.Bytes.{Bytes, codes, to_bytes}
use lighttpd_fuzz.Corpus.Seeds.Build.{joined}
use lighttpd_fuzz.Corpus.Seeds.Pages.{get_root}

abbrev pub missing_request : Bytes
missing_request = codes "GET /missing HTTP/1.1\r\nHost: localhost\r\nConnection: close\r\n\r\n"

abbrev pub malformed_host_request : Bytes
malformed_host_request = codes "GET / HTTP/1.1\r\nHost: one.example\r\nHost: two.example\r\n\r\n"

abbrev pub missing_host_request : Bytes
missing_host_request = codes "GET / HTTP/1.1\r\nConnection: close\r\n\r\n"

abbrev pub oversized_request_field : Bytes
oversized_request_field =
    codes "GET / HTTP/1.1\r\nHost: localhost\r\nX-Oversized: "
    ++ (replicate 1100 b'A')
    ++ codes "\r\nConnection: close\r\n\r\n"

abbrev pub get_with_body : Bytes
get_with_body =
    codes "GET /cgi/echo.cgi?normal HTTP/1.1\r\nHost: localhost\r\nContent-Length: 4\r\n"
    ++ codes "Connection: close\r\n\r\nseed"

abbrev pub status_statistics_request : Bytes
status_statistics_request =
    codes "GET /server-statistics HTTP/1.1\r\nHost: localhost\r\nConnection: close\r\n"
    ++ codes "\r\n"

abbrev pub websocket_upgrade : Bytes
websocket_upgrade =
    codes "GET /ws/ HTTP/1.1\r\nHost: localhost\r\nUpgrade: websocket\r\n"
    ++ codes "Connection: Upgrade\r\nSec-WebSocket-Version: 13\r\n"
    ++ codes "Sec-WebSocket-Key: MDEyMzQ1Njc4OWFiY2RlZg==\r\n\r\n"

abbrev pub wstunnel_upgrade : Bytes
wstunnel_upgrade =
    codes "GET /ws/ HTTP/1.1\r\nHost: localhost\r\nUpgrade: websocket\r\n"
    ++ codes "Connection: Upgrade\r\nSec-WebSocket-Version: 13\r\n"
    ++ codes "Sec-WebSocket-Key: MDEyMzQ1Njc4OWFiY2RlZg==\r\nOrigin: http://localhost\r\n"
    ++ codes "\r\n"

abbrev pub connect_request : Bytes
connect_request = codes "CONNECT :5602 HTTP/1.1\r\nHost: localhost\r\n\r\n"

abbrev pub haproxy_v1_get : Bytes
haproxy_v1_get = codes "PROXY TCP4 192.0.2.1 127.0.0.1 12345 80\r\n" ++ get_root

abbrev pub haproxy_v1_unknown : Bytes
haproxy_v1_unknown = codes "PROXY UNKNOWN\r\n" ++ get_root

abbrev pub haproxy_v2_get : Result Bytes
haproxy_v2_get = joined (
    ok (
      0x0d ∷ 0x0a ∷ 0x0d ∷ 0x0a ∷ 0x00 ∷ 0x0d ∷ 0x0a ∷ 0x51 ∷ 0x55 ∷ 0x49 ∷ 0x54 ∷ 0x0a ∷ 0x21
      ∷ 0x11 ∷ 0x00 ∷ 0x0c ∷ [])
    ∷ ok (192 ∷ 0 ∷ 2 ∷ 1 ∷ 127 ∷ 0 ∷ 0 ∷ 1 ∷ [])
    ∷ to_bytes 12345 2
    ∷ to_bytes 80 2
    ∷ ok get_root
    ∷ [])

abbrev pub haproxy_v2_address : Result Bytes
haproxy_v2_address =
    joined (ok (192 ∷ 0 ∷ 2 ∷ 1 ∷ 127 ∷ 0 ∷ 0 ∷ 1 ∷ []) ∷ to_bytes 12345 2 ∷ to_bytes 80 2 ∷ [])

abbrev pub haproxy_v2_ssl : Result Bytes
haproxy_v2_ssl =
    joined (ok (1 ∷ []) ∷ to_bytes 0 4 ∷ ok (codes "!" ++ (0 ∷ 7 ∷ []) ++ codes "TLSv1.3") ∷ [])

abbrev pub haproxy_v2_tlvs : Result Bytes
haproxy_v2_tlvs = joined (
    ok ((1 ∷ 0 ∷ 2 ∷ []) ++ codes "h2")
    ∷ ok ((2 ∷ 0 ∷ 11 ∷ []) ++ codes "one.example")
    ∷ ok ((5 ∷ 0 ∷ 4 ∷ []) ++ codes "seed")
    ∷ ok (codes " ")
    ∷ (do x ← haproxy_v2_ssl; to_bytes (length x) 2)
    ∷ haproxy_v2_ssl
    ∷ [])

abbrev pub haproxy_v2_tlv_get : Result Bytes
haproxy_v2_tlv_get = joined (
    ok (0x0d ∷ 0x0a ∷ 0x0d ∷ 0x0a ∷ 0x00 ∷ 0x0d ∷ 0x0a ∷ 0x51 ∷ 0x55 ∷ 0x49 ∷ 0x54 ∷ 0x0a ∷ [])
    ∷ ok (codes "!" ++ (17 ∷ []))
    ∷ (do x ← haproxy_v2_address; y ← haproxy_v2_tlvs; to_bytes (length x + length y) 2)
    ∷ haproxy_v2_address
    ∷ haproxy_v2_tlvs
    ∷ ok (codes "GET /files/index.txt HTTP/1.1\r\nHost: original.example\r\n")
    ∷ ok (codes "Connection: close\r\n\r\n")
    ∷ [])
