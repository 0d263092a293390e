-- ===== src/Corpus/Seeds/Scripts.antt =====
-- The seeds of normalize-corpus-flags.py: requests for scripts and for what needs a login.
use lighttpd_fuzz.Base.{◌++◌}
use lighttpd_fuzz.Base.Bytes.{Bytes, codes}

abbrev pub ssi_request : Bytes
ssi_request =
    codes "GET /ssi/index.shtml?seed=yes HTTP/1.1\r\nHost: localhost\r\n"
    ++ codes "Connection: close\r\n\r\n"

abbrev pub cgi_get : Bytes
cgi_get =
    codes "GET /cgi/echo.cgi?normal HTTP/1.1\r\nHost: localhost\r\nX-Fuzz: seed\r\n"
    ++ codes "Connection: close\r\n\r\n"

abbrev pub cgi_status : Bytes
cgi_status =
    codes "GET /cgi/echo.cgi?status HTTP/1.1\r\nHost: localhost\r\nConnection: close\r\n"
    ++ codes "\r\n"

abbrev pub cgi_redirect : Bytes
cgi_redirect =
    codes "GET /cgi/echo.cgi?redirect HTTP/1.1\r\nHost: localhost\r\n"
    ++ codes "Connection: close\r\n\r\n"

abbrev pub cgi_xsendfile : Bytes
cgi_xsendfile =
    codes "GET /cgi/echo.cgi?xsendfile HTTP/1.1\r\nHost: localhost\r\n"
    ++ codes "Connection: close\r\n\r\n"

abbrev pub cgi_stream : Bytes
cgi_stream =
    codes "GET /cgi/echo.cgi?stream HTTP/1.1\r\nHost: localhost\r\nConnection: close\r\n"
    ++ codes "\r\n"

abbrev pub cgi_post : Bytes
cgi_post =
    codes "POST /cgi/echo.cgi?normal HTTP/1.1\r\nHost: localhost\r\n"
    ++ codes "Content-Type: application/octet-stream\r\nContent-Length: 4\r\n"
    ++ codes "Connection: close\r\n\r\nseed"

abbrev pub cgi_expect_headers : Bytes
cgi_expect_headers =
    codes "POST /cgi/echo.cgi?normal HTTP/1.1\r\nHost: localhost\r\n"
    ++ codes "Content-Type: application/octet-stream\r\nContent-Length: 4\r\n"
    ++ codes "Expect: 100-continue\r\nConnection: close\r\n\r\n"

abbrev pub cgi_chunked_trailer : Bytes
cgi_chunked_trailer =
    codes "POST /cgi/echo.cgi?stream HTTP/1.1\r\nHost: localhost\r\n"
    ++ codes "Transfer-Encoding: chunked\r\nTrailer: Test-Trailer\r\nConnection: close\r\n"
    ++ codes "\r\n4\r\nseed\r\n0\r\nTest-Trailer: finished\r\n\r\n"

abbrev pub invalid_transfer_length : Bytes
invalid_transfer_length =
    codes "POST /cgi/echo.cgi HTTP/1.1\r\nHost: localhost\r\nContent-Length: 4\r\n"
    ++ codes "Transfer-Encoding: chunked\r\n\r\n4\r\nseed\r\n0\r\n\r\n"

abbrev pub digest_challenge_request : Bytes
digest_challenge_request =
    codes "GET /digest/index.txt HTTP/1.1\r\nHost: localhost\r\nConnection: close\r\n\r\n"

abbrev pub digest_auth_request : Bytes
digest_auth_request =
    codes "GET /digest/index.txt HTTP/1.1\r\nHost: localhost\r\n"
    ++ codes "Authorization: Digest username=\"fuzz\", realm=\"lighttpd-fuzz-digest\", n"
    ++ codes "once=\"seed\", uri=\"/digest/index.txt\", algorithm=MD5, response=\"0000000"
    ++ codes "0000000000000000000000000\", qop=auth, nc=00000001, cnonce=\"seed\"\r\n"
    ++ codes "Connection: close\r\n\r\n"

abbrev pub basic_user_auth_request : Bytes
basic_user_auth_request =
    codes "GET /basic-user/index.txt HTTP/1.1\r\nHost: localhost\r\n"
    ++ codes "Authorization: Basic ZnV6ejpmdXp6\r\nConnection: close\r\n\r\n"

abbrev pub invalid_basic_auth_request : Bytes
invalid_basic_auth_request =
    codes "GET /private/index.txt HTTP/1.1\r\nHost: localhost\r\n"
    ++ codes "Authorization: Basic !!!not-base64!!!\r\nConnection: close\r\n\r\n"
