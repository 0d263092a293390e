-- ===== src/Framing.antt =====
-- What the framing of packets means, apart from the code: an input is the list of its packets,
-- each behind its length. The reader of send-test-case.py and the test and the writer of
-- normalize-corpus-flags.py are compared with it.
pub mod Reader
pub mod Accept
pub mod Writer
use lighttpd_fuzz.Base.{ℕ, ◌≤◌, ◌<◌, ◌≡◌, List, [], ◌∷◌, ◌++◌, map, length, All, concat}
use lighttpd_fuzz.Base.Bytes.{Bytes, to_be}

-- A packet that a length of two bytes can announce; none is empty.
pub record IsPacket (packet : Bytes) : Type 0 where
  pub nonempty : 1 ≤ length packet
  pub fits : length packet < 65536

abbrev pub frame : Bytes → Bytes
frame packet = to_be 2 (length packet) ++ packet

abbrev pub frames : List Bytes → Bytes
frames packets = concat (map frame packets)

-- The inputs that the fuzzer accepts as several packets: one to 64 of them, framed.
pub record IsFramed (content : Bytes) (packets : List Bytes) : Type 0 where
  pub framed : content ≡ frames packets
  pub are_packets : All IsPacket packets
  pub some_packet : 1 ≤ length packets
  pub at_most : length packets ≤ 64
