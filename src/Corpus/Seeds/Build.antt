-- ===== src/Corpus/Seeds/Build.antt =====
-- What the seeds of normalize-corpus-flags.py are put together with.
use lighttpd_fuzz.Base.{
  ℕ, ◌/◌, ◌%◌, List, [], ◌∷◌, ◌++◌, concat, get_elem?, none, some, Result, ok, err, index_error,
  ◌>>=◌,
}
use lighttpd_fuzz.Base.Bytes.{Bytes, codes}
use lighttpd_fuzz.Corpus.Packets.{multipacket}

-- Results in order: the first exception, or all values.
unfoldable pub sequence : List (Result Bytes) → Result (List Bytes)
sequence [] = ok []
sequence (r ∷ rs) = do x ← r; xs ← sequence rs; ok (x ∷ xs)

-- `a + b + …` where an operand may raise.
unfoldable pub joined : List (Result Bytes) → Result Bytes
unfolding sequence
joined rs = do xs ← sequence rs; ok (concat xs)

-- `b"\x00" + request`
unfoldable pub flagged : ℕ → Result Bytes → Result Bytes
flagged flags r = do request ← r; ok (flags ∷ request)

-- `multipacket(flags, packets)` where a packet may raise.
unfoldable pub written : ℕ → List (Result Bytes) → Result Bytes
unfolding sequence
written flags rs = do packets ← sequence rs; multipacket flags packets

unfoldable pub encoded_request : Bytes → Bytes → Bytes
encoded_request path extra_headers =
    codes "GET "
    ++ (path
        ++ (codes " HTTP/1.1\r\nHost: localhost\r\n"
            ++ (extra_headers ++ codes "Connection: close\r\n\r\n")))

index_of : Bytes → ℕ → Result ℕ
index_of bs i = elim (get_elem? bs i) [ none ↦ err index_error | some b ↦ ok b ]

unfoldable pub base36_pair : ℕ → Result Bytes
unfolding index_of
base36_pair value = do
  let alphabet = codes "0123456789abcdefghijklmnopqrstuvwxyz"
  high ← index_of alphabet (value / 36)
  low ← index_of alphabet (value % 36)
  ok (high ∷ low ∷ [])
