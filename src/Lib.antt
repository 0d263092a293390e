-- ===== src/Lib.antt =====
-- lighttpd-fuzz: the tools that are written in Python, modelled and verified.
--
-- The repository fuzzes lighttpd from inside its own process. An input of the fuzzer is a byte of
-- flags (1 fragmented, 2 several packets, 4 wait for responses) and one packet or several framed ones.
--   * normalize-corpus-flags.py brings a corpus of inputs into this form and adds seeds.
--   * send-test-case.py takes an input apart and sends its packets by hand.
--   * backend-responder.py is the HTTP, FastCGI and SCGI backend that some profiles talk to.
--   * build-check/check_build.py inspects the built binaries.
--
-- The modules:
--   Base      shared names; `Result` for Python's exceptions; bytes, big-endian numbers and bit masks.
--     Text        the methods of Python's texts that the programs call; Text/Dict is on dictionaries,
--                 Text/Int and Text/Decimal on `int` and `str` of a number.
--   Corpus    normalize-corpus-flags.py.
--     Packets     `valid_multipacket`, `multipacket`.
--     Normalize   `normalize`.
--     Http2       `h2_frame`, `hpack_integer` and the functions on top of it; Http2/Wire has readers
--                 of frames and fields that follow the RFCs and not the code.
--     WebSocket   `websocket_client_frame`; WebSocket/Unmask has the reader.
--     Seeds       the constants of the module and `seed_inputs`, byte for byte.
--     Files       `atomic_write` and `main` on the files below the corpus directory.
--   Backend   backend-responder.py.
--     Modes       `select_mode`; Plan: `response_plan`.
--     Socket      a connection, `_recv_exact` and `_send`.
--     FastCgi     `_fcgi_params`, `fcgi_record` and `handle_fastcgi`: in each round of its loop a
--                 record is read and handled.
--     Scgi        `handle_scgi`; Scgi/Headers: `_parse_scgi_headers`.
--     Http        `_recv_headers`, `_parse_http_headers` and `handle_http` with its tunnel.
--     Server      `BackendServer`: the steps of the acceptor, of the workers and of `stop`.
--   Check     build-check/check_build.py.
--     Checks      the tables; Config: `load_config`; Policy: `effective_modes`, `policy_failed`.
--     Symbols     the lines that `parse_elf` reads; Elf: `parse_elf`, `inspect`; Detect: `detect`.
--     Columns, Tally   the loops of `make_report`; Rows, Report: the text and the exit status.
--   Send      send-test-case.py.
--     Packets     `fuzzer_packets`.
--     Main        `receive`, `receive_some` and `main`, as a list of events against a server.
--   Framing   what the framing of packets means, and how the programs' readers and writers agree.
--   Tests     the theorems at concrete inputs, and runs.
--
-- Conventions. Bytes are lists of native numbers; where it matters, a hypothesis says that they are
-- below 256. A loop over `data[offset:]` is a recursion on that rest of the data. A `while` loop
-- takes its fuel from the length of the data, or from the number that it divides: each round takes
-- two bytes at least, or divides by 128, so the fuel is enough. A constant that calls a function that
-- may raise is a `Result`.
--
-- A connection has a list of arrivals, the pieces in which the peer's bytes come and the pauses that
-- are longer than the timeout, a list of how many bytes each `send` takes at most, and the bytes sent.
-- `recv_exact` and `send_response` change it as the source's calls of `recv`, `send` and `sendall` do.
-- The loop of `recv_exact` has one round of fuel for each byte that is asked for, and that of
-- `send_response` one for each byte to send, since a round that goes on moves a byte; the loop of
-- `handle_fastcgi` has one for each byte of the stream and one more, since a round takes eight. A loop
-- of the model without fuel is `diverged`, which is no exception of Python.
--
-- `urllib.parse` is a parameter of `select_mode`: it gives a URI's path and the values of a key of
-- its query, or fails. Texts have the characters of latin-1, which the handlers decode; other
-- characters, which a query can write, are left as they are by the model's `lower` and `strip`.
--
-- The headers of HTTP are read in at most `_MAX_HEADERS` and one more rounds, and the tunnel takes one
-- round for each byte that it may echo; its timeout of half a second is a pause as well. `receive` of
-- send-test-case.py takes at most one round for each byte of its limit.
--
-- The threads of the server take their steps in any order; a step goes from one point at which another
-- thread can see it to the next. What a handler does with its client is one stretch of a worker, since
-- the handlers share nothing, and any number of steps of the others may come before its end.
--
-- The files of the corpus are a dictionary from paths to contents, and a list says for each call of
-- `atomic_write` where it fails, and whether `temporary.unlink` works. Parameters are the digest of a
-- seed, the listing of the directory, the process id and `mkdir`. In `Check` they are what
-- `configparser` has read, `re`, `fnmatch`, a run of readelf, the names of paths, and the writing of the
-- report. The three dictionaries that `make_report` has for each check are one column. `int` refuses
-- more than 4300 digits, as Python does.
--
-- Not modelled: argparse and printing but for the texts of the report and of the corpus's summary;
-- failing reads of files, an exception of `recv` but its timeout, and one of `send` or `sendall`;
-- in backend-responder.py `main` with the ready file and the signals; in check_build.py
-- `discover` and the test of the output path in `main`; the driver in C (fuzzer.c) and the shell
-- scripts.
pub mod Base
pub mod Corpus
pub mod Send
pub mod Framing
pub mod Backend
mod Tests
pub mod Check
