-- ===== src/Tests.antt =====
-- The theorems at concrete inputs, and runs of the modelled functions.
mod Framing
mod Http2
mod Backend
mod Check
mod Corpus
mod Send
mod Handlers
mod Server
