-- ===== src/Corpus.antt =====
-- normalize-corpus-flags.py: the corpus of fuzzer inputs.
pub mod Packets
pub mod Normalize
pub mod Http2
pub mod WebSocket
pub mod Seeds
pub mod Files
