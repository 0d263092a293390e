-- ===== src/Tests/Send.antt =====
-- The theorems on send-test-case.py applied to a small input and a server.
use lighttpd_fuzz.Base.{List, [], ◌∷◌, true}
use lighttpd_fuzz.Base.Bytes.{Bytes, codes}
use lighttpd_fuzz.Backend.Socket.{Arrival, chunk, pause}
use lighttpd_fuzz.Send.Main.{limit, receive, Server}
use lighttpd_fuzz.Send.Main.Receive.{IsReceived, receive-IsReceived}
use lighttpd_fuzz.Send.Main.Delivers.{Delivers}

-- An answer in two pieces, and a pause before more.
abbrev answers : List Arrival
answers = chunk 79 (75 ∷ []) ∷ chunk 10 [] ∷ pause ∷ chunk 1 [] ∷ []

receive-IsReceived_example : IsReceived limit 65535 [] answers (receive answers)
receive-IsReceived_example = receive-IsReceived answers

abbrev server : Server
server = record { accepts = true; answers = answers; survives = true }

abbrev packets : List Bytes
packets = codes "GET /" ∷ codes "x" ∷ []
