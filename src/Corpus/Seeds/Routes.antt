-- ===== src/Corpus/Seeds/Routes.antt =====
-- The seeds of normalize-corpus-flags.py: requests that are routed, rewritten, compressed or sent to WebDAV.
use lighttpd_fuzz.Base.{List, [], ◌∷◌, ◌++◌, map}
use lighttpd_fuzz.Base.Bytes.{Bytes, codes}
use lighttpd_fuzz.Corpus.Seeds.Build.{encoded_request}

abbrev pub condition_routing_requests : List Bytes
condition_routing_requests =
    encoded_request (codes "/condition-alias/index.txt") []
    ∷ encoded_request (codes "/condition-redirect/files/index.txt") []
    ∷ encoded_request (codes "/condition-rewrite/files/index.txt") []
    ∷ encoded_request (codes "/anything.deny") []
    ∷ (codes "GET /missing HTTP/1.1\r\nHost: status-errors.example\r\nConnection: close\r\n"
        ++ codes "\r\n")
    ∷ []

abbrev pub url_normalization_requests : List Bytes
url_normalization_requests =
    encoded_request (codes "/files/%69ndex.txt?space=a%20b+c") []
    ∷ encoded_request (codes "/files%2findex.txt") []
    ∷ encoded_request (codes "/files/./../files/index.txt") []
    ∷ encoded_request (codes "/files\\index.txt") []
    ∷ encoded_request (codes "/files/%ff.txt") []
    ∷ []

abbrev pub static_profile_requests : List Bytes
static_profile_requests =
    encoded_request (codes "/static/no-etag/large.txt") (codes "If-None-Match: *\r\n")
    ∷ encoded_request (codes "/static/pathinfo/large.txt/extra") []
    ∷ encoded_request (codes "/static/index/") []
    ∷ encoded_request (codes "/static/link.txt") []
    ∷ encoded_request (codes "/no-etag/large.txt") (codes "If-None-Match: *\r\n")
    ∷ encoded_request (codes "/indexes/") []
    ∷ encoded_request (codes "/no-follow/link.txt") []
    ∷ []

abbrev pub userdir_edge_requests : List Bytes
userdir_edge_requests =
    map (λ path. encoded_request path [])
      (codes "/~./"
        ∷ codes "/~../"
        ∷ codes "/~root/"
        ∷ codes "/~fuzz"
        ∷ codes "/~fuzz/%2e%2e/"
        ∷ [])

abbrev pub deflate_requests : List Bytes
deflate_requests =
    map
      (λ encoding.
        encoded_request (codes "/files/large.txt")
          (codes "Accept-Encoding: " ++ encoding ++ codes "\r\n"))
      (codes "zstd"
        ∷ codes "br"
        ∷ codes "gzip"
        ∷ codes "deflate"
        ∷ codes "bzip2"
        ∷ codes "gzip;q=0.3, br;q=1.0, zstd;q=0.7, identity;q=0.1"
        ∷ [])

abbrev pub webdav_options : Bytes
webdav_options = codes "OPTIONS /dav/ HTTP/1.1\r\nHost: localhost\r\nConnection: close\r\n\r\n"

abbrev pub webdav_propfind : Bytes
webdav_propfind =
    codes "PROPFIND /dav/ HTTP/1.1\r\nHost: localhost\r\nDepth: 1\r\n"
    ++ codes "Content-Type: application/xml\r\nContent-Length: 82\r\nConnection: close\r\n"
    ++ codes "\r\n"
    ++ codes "<?xml version=\"1.0\"?><propfind xmlns=\"DAV:\"><prop><displayname/></prop"
    ++ codes "></propfind>"

abbrev pub webdav_propfind_infinity : Bytes
webdav_propfind_infinity =
    codes "PROPFIND /dav/ HTTP/1.1\r\nHost: localhost\r\nDepth: infinity\r\n"
    ++ codes "Content-Length: 0\r\nConnection: close\r\n\r\n"

abbrev pub webdav_mkcol : Bytes
webdav_mkcol =
    codes "MKCOL /dav/seed-collection HTTP/1.1\r\nHost: localhost\r\n"
    ++ codes "Content-Length: 0\r\nConnection: close\r\n\r\n"

abbrev pub webdav_copy : Bytes
webdav_copy =
    codes "COPY /dav/seed.txt HTTP/1.1\r\nHost: localhost\r\n"
    ++ codes "Destination: /dav/copied.txt\r\nOverwrite: T\r\nDepth: infinity\r\n"
    ++ codes "Connection: close\r\n\r\n"

abbrev pub webdav_move : Bytes
webdav_move =
    codes "MOVE /dav/copied.txt HTTP/1.1\r\nHost: localhost\r\n"
    ++ codes "Destination: /dav/moved.txt\r\nOverwrite: F\r\nConnection: close\r\n\r\n"

abbrev pub webdav_delete : Bytes
webdav_delete =
    codes "DELETE /dav/moved.txt HTTP/1.1\r\nHost: localhost\r\nConnection: close\r\n\r\n"

abbrev pub webdav_partial_put : Bytes
webdav_partial_put =
    codes "PUT /dav/seed.txt HTTP/1.1\r\nHost: localhost\r\n"
    ++ codes "Content-Range: bytes 1-2/*\r\nContent-Length: 2\r\nConnection: close\r\n\r\nXX"
