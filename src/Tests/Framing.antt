-- ===== src/Tests/Framing.antt =====
-- Inputs of one and of several packets.
use lighttpd_fuzz.Base.{
  ◌<◌, ◌↔◌, List, [], ◌∷◌, ◌++◌, ◌≡◌, ◌≢◌, ◌⊎◌, refl, true, All, ok, err, value_error, is_ok, arith,
  bit_and,
}
use lighttpd_fuzz.Base.Bytes.{Bytes, codes, to_bytes}
use lighttpd_fuzz.Corpus.Packets.{valid_multipacket, extend_packets, multipacket}
use lighttpd_fuzz.Corpus.Normalize.{normalize}
use lighttpd_fuzz.Corpus.Normalize.Laws.{IsAcceptable, normalize_cases, fuzzer_packets-normalize}
use lighttpd_fuzz.Send.Packets.{packets_loop, some_packets, fuzzer_packets}
use lighttpd_fuzz.Framing.{IsFramed, frames}
use lighttpd_fuzz.Framing.Accept.{fuzzer_packets_iff, fuzzer_packets_agrees, valid_multipacket_iff}
use lighttpd_fuzz.Framing.Writer.{Fits, multipacket_iff, fuzzer_packets-multipacket}

abbrev two_packets : List Bytes
two_packets = codes "GET /\r\n" ∷ codes "x" ∷ []

abbrev two_framed : Bytes
two_framed = 0 ∷ 7 ∷ codes "GET /\r\n" ++ 0 ∷ 1 ∷ codes "x"

two_written : multipacket 6 two_packets ≡ ok (6 ∷ two_framed)
unfolding multipacket extend_packets to_bytes
two_written = refl

two_read : fuzzer_packets (6 ∷ two_framed) ≡ ok two_packets
unfolding fuzzer_packets packets_loop some_packets
two_read = refl

cut_off : fuzzer_packets (2 ∷ 0 ∷ 2 ∷ codes "x") ≡ err (value_error "invalid packet length")
unfolding fuzzer_packets packets_loop
cut_off = refl

no_packets : fuzzer_packets (2 ∷ []) ≡ err (value_error "fuzzer input has no packets")
unfolding fuzzer_packets packets_loop some_packets
no_packets = refl

raw_request : normalize (codes "GET /") ≡ 0 ∷ codes "GET /"
unfolding normalize
raw_request = refl

flag_set : bit_and 6 2 ≢ 0
flag_set e = omega arith

normalize_cases_example :
    (normalize two_framed ≡ two_framed) × ((two_framed ≡ []) ⊎ IsAcceptable two_framed)
    ⊎ (normalize two_framed ≡ 0 ∷ two_framed) × ¬ (IsAcceptable two_framed)
normalize_cases_example = normalize_cases two_framed

fuzzer_packets-normalize_example : is_ok (fuzzer_packets (normalize (2 ∷ two_framed))) ≡ true
fuzzer_packets-normalize_example = fuzzer_packets-normalize (2 ∷ two_framed) (λ e. cc)

fuzzer_packets_iff_example :
    (fuzzer_packets (6 ∷ two_framed) ≡ ok two_packets) ↔ IsFramed two_framed two_packets
fuzzer_packets_iff_example = fuzzer_packets_iff 6 two_framed two_packets flag_set (omega arith)

fuzzer_packets_agrees_example :
    is_ok (fuzzer_packets (6 ∷ two_framed)) ≡ valid_multipacket two_framed
fuzzer_packets_agrees_example = fuzzer_packets_agrees 6 two_framed flag_set

valid_multipacket_iff_example :
    (valid_multipacket two_framed ≡ true) ↔ ((packets : List Bytes) × IsFramed two_framed packets)
valid_multipacket_iff_example = valid_multipacket_iff two_framed (omega arith)

multipacket_iff_example : (multipacket 6 two_packets ≡ ok (6 ∷ two_framed)) ↔ (
    (6 < 256) × All Fits two_packets × (◌≡◌ {A = Bytes} (6 ∷ two_framed) (6 ∷ frames two_packets)))
multipacket_iff_example = multipacket_iff 6 two_packets (6 ∷ two_framed)

fuzzer_packets-multipacket_example :
    (multipacket 6 two_packets ≡ ok (6 ∷ frames two_packets))
    × (fuzzer_packets (6 ∷ frames two_packets) ≡ ok two_packets)
    × (valid_multipacket (frames two_packets) ≡ true)
fuzzer_packets-multipacket_example =
    fuzzer_packets-multipacket 6 two_packets (omega arith) flag_set (omega arith) (omega arith)
      (omega arith) (omega arith)
