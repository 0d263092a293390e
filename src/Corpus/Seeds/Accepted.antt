-- ===== src/Corpus/Seeds/Accepted.antt =====
-- Every seed is an input that the fuzzer accepts.
use lighttpd_fuzz.Base.{
  List, [], ◌∷◌, ◌≡◌, refl, Bool, true, false, ◌&&◌, ◌||◌, leb, ◌==◌, bit_and, Result, ok, err, All,
  is_ok, arith,
}
use lighttpd_fuzz.Base.Bytes.{Bytes, to_bytes, byte_string}
use lighttpd_fuzz.Corpus.Packets.{valid_loop, valid_multipacket, extend_packets, multipacket}
use lighttpd_fuzz.Corpus.Normalize.{normalize}
use lighttpd_fuzz.Corpus.Normalize.Laws.{IsAcceptable, normalize-of_acceptable, acceptable_is_ok}
use lighttpd_fuzz.Send.Packets.{fuzzer_packets}
use lighttpd_fuzz.Corpus.Http2.{
  h2_frame, hpack_loop, hpack_integer, hpack_raw_string, hpack_literal, hpack_literal_name,
  join_literals, method_field, request_block, connect_block, h2_request_headers,
  h2_extended_connect_headers,
}
use lighttpd_fuzz.Corpus.WebSocket.{mask_at, masked, websocket_client_frame}
use lighttpd_fuzz.Corpus.Seeds.Build.{
  flagged, written, joined, sequence, encoded_request, base36_pair,
}
use lighttpd_fuzz.Corpus.Seeds.{seed_inputs}

accepts : Bytes → Bool
accepts [] = false
accepts (flags ∷ rest) = leb flags 7 && (bit_and flags 2 == 0 || valid_multipacket rest)

accepts_all : List Bytes → Bool
accepts_all [] = true
accepts_all (s ∷ ss) = accepts s && accepts_all ss

accepts_result : Result (List Bytes) → Bool
accepts_result (ok ss) = accepts_all ss
accepts_result (err e) = false

accepts-IsAcceptable : (seed : Bytes) → accepts seed ≡ true → IsAcceptable seed
unfolding accepts
accepts-IsAcceptable [] e = cc
accepts-IsAcceptable (flags ∷ rest) e = record {
  known_flags = ground arith;
  well_framed = λ set. ground arith;
}

-- Every value of a result that is no exception.
abbrev pub AllOk : (Bytes → Type 0) → Result (List Bytes) → Type 0
AllOk P (ok seeds) = All P seeds
AllOk P (err e) = ⊥

-- What `normalize` keeps and `fuzzer_packets` takes apart.
pub record IsKept (seed : Bytes) : Type 0 where
  pub acceptable : IsAcceptable seed
  pub kept : normalize seed ≡ seed
  pub read : is_ok (fuzzer_packets seed) ≡ true

IsAcceptable-IsKept : (seed : Bytes) → IsAcceptable seed → IsKept seed
IsAcceptable-IsKept seed h = record {
  acceptable = h;
  kept = normalize-of_acceptable seed h;
  read = acceptable_is_ok seed h;
}

accepts_all-IsKept : (seeds : List Bytes) → accepts_all seeds ≡ true → All IsKept seeds
unfolding accepts_all
accepts_all-IsKept [] e = tt
accepts_all-IsKept (seed ∷ seeds) e = (
  IsAcceptable-IsKept seed (accepts-IsAcceptable seed (ground arith)),
  accepts_all-IsKept seeds (ground arith),
)

accepts_result-IsKept : (r : Result (List Bytes)) → accepts_result r ≡ true → AllOk IsKept r
unfolding accepts_result
accepts_result-IsKept (ok seeds) e = accepts_all-IsKept seeds e
accepts_result-IsKept (err x) e = cc

seeds_accepted : accepts_result seed_inputs ≡ true
unfolding accepts_result accepts_all accepts seed_inputs valid_loop valid_multipacket extend_packets
    multipacket h2_frame hpack_loop hpack_integer hpack_raw_string hpack_literal hpack_literal_name
    join_literals method_field request_block connect_block h2_request_headers
    h2_extended_connect_headers mask_at masked websocket_client_frame flagged written joined
    sequence encoded_request base36_pair to_bytes byte_string
seeds_accepted = refl

-- No seed raises when it is built; every one has flags of at most 7 and, behind the multipacket flag,
-- a valid framing; `normalize` keeps it, and `fuzzer_packets` reads it.
pub seed_inputs-IsKept : AllOk IsKept seed_inputs
seed_inputs-IsKept = accepts_result-IsKept seed_inputs seeds_accepted
