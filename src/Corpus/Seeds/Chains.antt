-- ===== src/Corpus/Seeds/Chains.antt =====
-- The seeds of normalize-corpus-flags.py: requests that follow one another on a connection.
use lighttpd_fuzz.Base.{List, [], ◌∷◌, ◌++◌}
use lighttpd_fuzz.Base.Bytes.{Bytes, codes}

abbrev pub chunked_fragment_packets : List Bytes
chunked_fragment_packets =
    (codes "POST /cgi/echo.cgi?normal HTTP/1.1\r\nHost: localhost\r\n"
      ++ codes "Transfer-Encoding: chunked\r\nTrailer: Test-Trailer\r\nConnection: close\r\n"
      ++ codes "\r\n4;fragment=yes\r")
    ∷ codes "\nse"
    ∷ codes "ed\r"
    ∷ codes "\n0\r\nTest-Trailer: finished\r\n"
    ∷ codes "\r\n"
    ∷ []

abbrev pub webdav_lifecycle_requests : List Bytes
webdav_lifecycle_requests =
    (codes "MKCOL /dav/corpus-chain HTTP/1.1\r\nHost: localhost\r\nContent-Length: 0\r\n"
      ++ codes "Connection: keep-alive\r\n\r\n")
    ∷ (codes "PUT /dav/corpus-chain/source.txt HTTP/1.1\r\nHost: localhost\r\n"
        ++ codes "Content-Length: 16\r\nConnection: keep-alive\r\n\r\ncoverage-seed-01")
    ∷ (codes "COPY /dav/corpus-chain/source.txt HTTP/1.1\r\nHost: localhost\r\n"
        ++ codes "Destination: /dav/corpus-chain/copied.txt\r\nOverwrite: T\r\n"
        ++ codes "Connection: keep-alive\r\n\r\n")
    ∷ (codes "PROPFIND /dav/corpus-chain/copied.txt HTTP/1.1\r\nHost: localhost\r\n"
        ++ codes "Depth: 0\r\nContent-Length: 0\r\nConnection: keep-alive\r\n\r\n")
    ∷ (codes "MOVE /dav/corpus-chain/copied.txt HTTP/1.1\r\nHost: localhost\r\n"
        ++ codes "Destination: /dav/corpus-chain/moved.txt\r\nOverwrite: T\r\n"
        ++ codes "Connection: keep-alive\r\n\r\n")
    ∷ (codes "DELETE /dav/corpus-chain/source.txt HTTP/1.1\r\nHost: localhost\r\n"
        ++ codes "Connection: keep-alive\r\n\r\n")
    ∷ (codes "DELETE /dav/corpus-chain/moved.txt HTTP/1.1\r\nHost: localhost\r\n"
        ++ codes "Connection: keep-alive\r\n\r\n")
    ∷ (codes "DELETE /dav/corpus-chain HTTP/1.1\r\nHost: localhost\r\nDepth: infinity\r\n"
        ++ codes "Connection: close\r\n\r\n")
    ∷ []

abbrev pub webdav_tree_requests : List Bytes
webdav_tree_requests =
    (codes "MKCOL /dav/corpus-tree HTTP/1.1\r\nHost: localhost\r\nContent-Length: 0\r\n"
      ++ codes "Connection: keep-alive\r\n\r\n")
    ∷ (codes "MKCOL /dav/corpus-tree/child HTTP/1.1\r\nHost: localhost\r\n"
        ++ codes "Content-Length: 0\r\nConnection: keep-alive\r\n\r\n")
    ∷ (codes "PUT /dav/corpus-tree/child/item.txt HTTP/1.1\r\nHost: localhost\r\n"
        ++ codes "Content-Length: 9\r\nConnection: keep-alive\r\n\r\ntree-seed")
    ∷ (codes "COPY /dav/corpus-tree HTTP/1.1\r\nHost: localhost\r\n"
        ++ codes "Destination: /dav/corpus-tree-copy\r\nDepth: infinity\r\nOverwrite: T\r\n"
        ++ codes "Connection: keep-alive\r\n\r\n")
    ∷ (codes "PROPFIND /dav/corpus-tree-copy/ HTTP/1.1\r\nHost: localhost\r\n"
        ++ codes "Depth: infinity\r\nContent-Length: 0\r\nConnection: keep-alive\r\n\r\n")
    ∷ (codes "DELETE /dav/corpus-tree-copy HTTP/1.1\r\nHost: localhost\r\n"
        ++ codes "Depth: infinity\r\nConnection: keep-alive\r\n\r\n")
    ∷ (codes "DELETE /dav/corpus-tree HTTP/1.1\r\nHost: localhost\r\nDepth: infinity\r\n"
        ++ codes "Connection: close\r\n\r\n")
    ∷ []

abbrev pub webdav_partial_put_requests : List Bytes
webdav_partial_put_requests =
    (codes "PUT /dav/corpus-partial.txt HTTP/1.1\r\nHost: localhost\r\n"
      ++ codes "Content-Length: 6\r\nConnection: keep-alive\r\n\r\nabcdef")
    ∷ (codes "PUT /dav/corpus-partial.txt HTTP/1.1\r\nHost: localhost\r\n"
        ++ codes "Content-Range: bytes 1-2/*\r\nContent-Length: 2\r\nConnection: keep-alive\r\n"
        ++ codes "\r\nXY")
    ∷ (codes "GET /dav/corpus-partial.txt HTTP/1.1\r\nHost: localhost\r\n"
        ++ codes "Connection: keep-alive\r\n\r\n")
    ∷ (codes "DELETE /dav/corpus-partial.txt HTTP/1.1\r\nHost: localhost\r\n"
        ++ codes "Connection: close\r\n\r\n")
    ∷ []

abbrev pub connect_tunnel_requests : List Bytes
connect_tunnel_requests =
    (codes "CONNECT localhost:5602 HTTP/1.1\r\nHost: localhost:5602\r\n"
      ++ codes "Connection: keep-alive\r\n\r\n")
    ∷ codes "GET /files/index.txt HTTP/1.1\r\nHost: localhost\r\nConnection: close\r\n\r\n"
    ∷ []

abbrev pub listing_cache_requests : List Bytes
listing_cache_requests =
    codes "GET /listing/ HTTP/1.1\r\nHost: localhost\r\nConnection: keep-alive\r\n\r\n"
    ∷ codes "GET /listing/ HTTP/1.1\r\nHost: localhost\r\nConnection: keep-alive\r\n\r\n"
    ∷ (codes "GET /listing/?json HTTP/1.1\r\nHost: localhost\r\nAccept: application/json\r\n"
        ++ codes "Connection: close\r\n\r\n")
    ∷ []

abbrev pub deflate_cache_requests : List Bytes
deflate_cache_requests =
    (codes "GET /files/large.txt HTTP/1.1\r\nHost: localhost\r\nAccept-Encoding: zstd\r\n"
      ++ codes "Connection: keep-alive\r\n\r\n")
    ∷ (codes "GET /files/large.txt HTTP/1.1\r\nHost: localhost\r\nAccept-Encoding: zstd\r\n"
        ++ codes "Connection: close\r\n\r\n")
    ∷ []
