-- ===== src/Corpus/Seeds/Pages.antt =====
-- The seeds of normalize-corpus-flags.py: requests for pages and files.
use lighttpd_fuzz.Base.{◌++◌}
use lighttpd_fuzz.Base.Bytes.{Bytes, codes}

abbrev pub get_root : Bytes
get_root = codes "GET / HTTP/1.1\r\nHost: localhost\r\nConnection: close\r\n\r\n"

abbrev pub get_keepalive : Bytes
get_keepalive = codes "GET / HTTP/1.1\r\nHost: localhost\r\nConnection: keep-alive\r\n\r\n"

abbrev pub get_file : Bytes
get_file =
    codes "GET /files/index.txt HTTP/1.1\r\nHost: localhost\r\nAccept-Encoding: gzip\r\n"
    ++ codes "Connection: close\r\n\r\n"

abbrev pub options : Bytes
options = codes "OPTIONS * HTTP/1.1\r\nHost: localhost\r\n\r\n"

abbrev pub head_root : Bytes
head_root = codes "HEAD / HTTP/1.1\r\nHost: localhost\r\nConnection: close\r\n\r\n"

abbrev pub range_request : Bytes
range_request =
    codes "GET /files/index.txt HTTP/1.1\r\nHost: localhost\r\nRange: bytes=0-7\r\n"
    ++ codes "Connection: close\r\n\r\n"

abbrev pub forwarded_request : Bytes
forwarded_request =
    codes "GET / HTTP/1.1\r\nHost: localhost\r\nForwarded: for=192.0.2.1;proto=https\r\n"
    ++ codes "Connection: close\r\n\r\n"

abbrev pub private_request : Bytes
private_request =
    codes "GET /private/index.txt HTTP/1.1\r\nHost: localhost\r\nConnection: close\r\n"
    ++ codes "\r\n"

abbrev pub private_auth_request : Bytes
private_auth_request =
    codes "GET /private/index.txt HTTP/1.1\r\nHost: localhost\r\n"
    ++ codes "Authorization: Basic ZnV6ejpmdXp6\r\nConnection: close\r\n\r\n"

abbrev pub status_request : Bytes
status_request =
    codes "GET /server-status?auto HTTP/1.1\r\nHost: localhost\r\nConnection: close\r\n"
    ++ codes "\r\n"

abbrev pub alias_request : Bytes
alias_request =
    codes "GET /alias/index.txt HTTP/1.1\r\nHost: localhost\r\nConnection: close\r\n\r\n"

abbrev pub redirect_request : Bytes
redirect_request = codes "GET /redirect HTTP/1.1\r\nHost: localhost\r\nConnection: close\r\n\r\n"

abbrev pub rewrite_request : Bytes
rewrite_request =
    codes "GET /rewrite/files/index.txt HTTP/1.1\r\nHost: localhost\r\n"
    ++ codes "Connection: close\r\n\r\n"

abbrev pub webdav_put : Bytes
webdav_put = codes "PUT /dav/seed.txt HTTP/1.1\r\nHost: localhost\r\nContent-Length: 4\r\n\r\nseed"

abbrev pub webdav_chunked_put : Bytes
webdav_chunked_put =
    codes "PUT /dav/chunked.txt HTTP/1.1\r\nHost: localhost\r\n"
    ++ codes "Transfer-Encoding: chunked\r\nConnection: close\r\n\r\n4\r\nseed\r\n0\r\n\r\n"

abbrev pub h2c_upgrade : Bytes
h2c_upgrade =
    codes "GET / HTTP/1.1\r\nHost: localhost\r\nConnection: Upgrade, HTTP2-Settings\r\n"
    ++ codes "Upgrade: h2c\r\nHTTP2-Settings: AAMAAABkAAQAAP__\r\n\r\n"

abbrev pub http10_range : Bytes
http10_range =
    codes "GET /files/large.txt HTTP/1.0\r\nRange: bytes=0-15\r\nConnection: close\r\n"
    ++ codes "\r\n"

abbrev pub multi_range : Bytes
multi_range =
    codes "GET /files/large.txt HTTP/1.1\r\nHost: localhost\r\n"
    ++ codes "Range: bytes=96-127,0-15,8-31,-16\r\nConnection: close\r\n\r\n"

abbrev pub unsatisfiable_range : Bytes
unsatisfiable_range =
    codes "GET /files/large.txt HTTP/1.1\r\nHost: localhost\r\n"
    ++ codes "Range: bytes=999999-1000000\r\nConnection: close\r\n\r\n"

abbrev pub if_range : Bytes
if_range =
    codes "GET /files/large.txt HTTP/1.1\r\nHost: localhost\r\nRange: bytes=0-31\r\n"
    ++ codes "If-Range: \"stale-seed-etag\"\r\nConnection: close\r\n\r\n"

abbrev pub conditional_get : Bytes
conditional_get =
    codes "GET /files/large.txt HTTP/1.1\r\nHost: localhost\r\nIf-None-Match: *\r\n"
    ++ codes "If-Modified-Since: Sun, 06 Nov 2094 08:49:37 GMT\r\nConnection: close\r\n\r\n"

abbrev pub absolute_uri : Bytes
absolute_uri =
    codes "GET http://localhost/files/index.txt?absolute=1 HTTP/1.1\r\n"
    ++ codes "Connection: close\r\n\r\n"

abbrev pub dirlist_html : Bytes
dirlist_html = codes "GET /listing/ HTTP/1.1\r\nHost: localhost\r\nConnection: close\r\n\r\n"

abbrev pub dirlist_json : Bytes
dirlist_json =
    codes "GET /listing/?json HTTP/1.1\r\nHost: localhost\r\nAccept: application/json\r\n"
    ++ codes "Connection: close\r\n\r\n"

abbrev pub conditions_request : Bytes
conditions_request =
    codes "POST /branch/conditions/target?mode=fuzz HTTP/1.1\r\n"
    ++ codes "Host: conditions.example\r\nUser-Agent: FuzzAgent\r\n"
    ++ codes "Referer: http://trusted.example/seed\r\nCookie: fuzz=yes\r\n"
    ++ codes "Accept-Language: en-US\r\nContent-Length: 4\r\nConnection: close\r\n\r\nseed"

abbrev pub vhost_request : Bytes
vhost_request = codes "GET / HTTP/1.1\r\nHost: one.example\r\nConnection: close\r\n\r\n"

abbrev pub vhost_fallback_request : Bytes
vhost_fallback_request =
    codes "GET / HTTP/1.1\r\nHost: missing.example\r\nConnection: close\r\n\r\n"

abbrev pub evhost_request : Bytes
evhost_request = codes "GET / HTTP/1.1\r\nHost: www.example.org\r\nConnection: close\r\n\r\n"

abbrev pub userdir_request : Bytes
userdir_request = codes "GET /~fuzz/ HTTP/1.1\r\nHost: localhost\r\nConnection: close\r\n\r\n"
