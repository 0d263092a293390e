-- ===== src/Send.antt =====
-- send-test-case.py: an input of the fuzzer, sent by hand.
pub mod Packets
pub mod Main
