-- ===== src/Send/Main/Delivers.antt =====
-- What `main` of send-test-case.py sends, and when it waits.
use lighttpd_fuzz.Base.{
  arith, ℕ, ◌+◌, List, [], ◌∷◌, ◌++◌, ◌≡◌, refl, sym, ap, ◌∙◌, true, false, not, ◌&&◌, ltb, length,
  take-append-drop, drop, none, ok, Result, Bool-cases, inl, inr, ◌==◌, bit_and, ◌/◌, if◌then◌else◌,
}
use mathlib.Core.Path.{subst}
use lighttpd_fuzz.Base.Bytes.{Bytes}
use lighttpd_fuzz.Backend.Socket.{Arrival}
use lighttpd_fuzz.Send.Main.{
  Event, sent, slept, announced, printed, no_response, status, Options, chosen_flags,
  chosen_packets, send_packet, between, send_packets, show, Server, exchange, run,
}
use lighttpd_fuzz.Send.Main.Receive.{receive-IsReceived}

-- What the exchange is for the server: a packet, in one `sendall` or in several, a pause before the next
-- one, or a wait for an answer.
pub data Step : Type 0 where
  gives : Bytes → ℕ → Step
  pauses : Step
  awaits : Step

-- What a step is when another `sendall` comes in front of it.
abbrev pub add_sent : Bytes → List Step → List Step
add_sent content (gives rest n ∷ steps) = gives (content ++ rest) (n + 1) ∷ steps
add_sent content steps = gives content 1 ∷ steps

abbrev pub slept_step : ℕ → List Step → List Step
slept_step time steps = if time == 1 then steps else pauses ∷ steps

-- The events as such steps; `sendall`s with nothing but the short sleep between them are one packet's.
abbrev pub steps_of : List Event → List Step
steps_of [] = []
steps_of (sent content ∷ events) = add_sent content (steps_of events)
steps_of (slept time ∷ events) = slept_step time (steps_of events)
steps_of (announced number size ∷ events) = steps_of events
steps_of (printed response ∷ events) = awaits ∷ steps_of events
steps_of (no_response ∷ events) = steps_of events
steps_of (status up ∷ events) = steps_of events

-- The flag 4 asks for an answer between two packets, and the flag 1 for two pieces of a packet of two
-- bytes or more.
abbrev pub wait_step : ℕ → Step
wait_step flags = if bit_and flags 0x04 == 0 then pauses else awaits

abbrev pub piece_count : ℕ → Bytes → ℕ
piece_count flags packet = if not (bit_and flags 0x01 == 0) && ltb 1 (length packet) then 2 else 1

-- What the flags ask for: the packets in order, with a wait between each two of them.
abbrev pub schedule : ℕ → List Bytes → List Step
schedule flags [] = []
schedule flags (packet ∷ []) = gives packet (piece_count flags packet) ∷ []
schedule flags (packet ∷ next ∷ packets) =
    gives packet (piece_count flags packet) ∷ wait_step flags ∷ schedule flags (next ∷ packets)

-- The first step of a list, if there is one, is a wait.
abbrev Waits : List Step → Type 0
Waits [] = Unit
Waits (gives content n ∷ steps) = ⊥
Waits (pauses ∷ steps) = Unit
Waits (awaits ∷ steps) = Unit

add_sent-Waits :
    (content : Bytes) (steps : List Step)
    → Waits steps
    → add_sent content steps ≡ gives content 1 ∷ steps
add_sent-Waits content [] h = refl
add_sent-Waits content (gives rest n ∷ steps) h = absurd h
add_sent-Waits content (pauses ∷ steps) h = refl
add_sent-Waits content (awaits ∷ steps) h = refl

-- A packet is one step, if no `sendall` follows at once.
steps_of-send_packet :
    (flags : ℕ) (packet : Bytes) (events : List Event)
    → Waits (steps_of events)
    → steps_of (send_packet flags packet ++ events)
      ≡ gives packet (piece_count flags packet) ∷ steps_of events
unfolding send_packet
steps_of-send_packet flags packet events h =
    elim (Bool-cases (not (bit_and flags 0x01 == 0) && ltb 1 (length packet))) [
      | inl halved ↦
          rw (halved, add_sent-Waits (drop (length packet / 2) packet) (steps_of events) h)
            (ap (λ t. gives t 2 ∷ steps_of events) (take-append-drop (length packet / 2) packet))
      | inr whole ↦ rw (whole, add_sent-Waits packet (steps_of events) h) refl
    ]

-- Between two packets there is one wait.
steps_of-between :
    (flags : ℕ) (arrivals : List Arrival) (events : List Event)
    → steps_of ((between flags true arrivals).0 ++ events) ≡ wait_step flags ∷ steps_of events
unfolding between
steps_of-between flags arrivals events = elim (Bool-cases (bit_and flags 0x04 == 0)) [
  | inl clear ↦ rw clear refl
  | inr set ↦ rw set refl
]

wait_step-Waits : (flags : ℕ) (steps : List Step) → Waits (wait_step flags ∷ steps)
wait_step-Waits flags steps = elim (Bool-cases (bit_and flags 0x04 == 0)) [
  | inl clear ↦ rw clear tt
  | inr set ↦ rw set tt
]

steps_of-send_packets :
    (flags total number : ℕ) (packets : List Bytes) (arrivals : List Arrival)
    → number + length packets ≡ total + 1
    → steps_of (send_packets flags total number packets arrivals).0 ≡ schedule flags packets
unfolding send_packets
steps_of-send_packets flags total number [] arrivals e = refl
steps_of-send_packets flags total number (packet ∷ []) arrivals e =
    let last : ltb number total ≡ false = ground arith in
    rw last (unfold between in steps_of-send_packet flags packet [] tt)
steps_of-send_packets flags total number (packet ∷ next ∷ packets) arrivals e =
    let more : ltb number total ≡ true = ground arith in
    rw more (
      let waits = (between flags true arrivals).0 in
      let rest = (between flags true arrivals).1 in
      let events = (send_packets flags total (number + 1) (next ∷ packets) rest).0 in
      let waited : steps_of (waits ++ events) ≡ wait_step flags ∷ steps_of events =
        steps_of-between flags arrivals events in
      steps_of-send_packet flags packet (waits ++ events)
        (subst Waits (sym waited) (wait_step-Waits flags (steps_of events)))
      ∙ ap (λ t. gives packet (piece_count flags packet) ∷ t)
          (waited
            ∙ ap (λ t. wait_step flags ∷ t)
                (steps_of-send_packets flags total (number + 1) (next ∷ packets) rest
                  (omega (arith, e)))))

-- A run that ends, whose transfers up to the last answer are what the flags ask for.
pub record Delivers (server : Server) (flags : ℕ) (packets : List Bytes)
    (r : Result (List Event × ℕ)) : Type 0 where
  pub transfers : List Event
  pub response : Bytes
  pub runs :
      r
      ≡ ok (
        (transfers ++ show response ∷ []) ++ status server.survives ∷ [],
        if server.survives then 0 else 1,
      )
  pub scheduled : steps_of transfers ≡ schedule flags packets

-- If the server takes the connection, `main` sends the packets that the options choose, in order and
-- unchanged, each in as many pieces as the flags ask for, and between each two packets it reads an answer
-- or pauses, as the flags ask for; then it prints a last answer, and it returns 0 exactly if the server
-- takes a second connection.
pub run-Delivers :
    (options : Options) (content : Bytes) (server : Server) (packets : List Bytes)
    → server.accepts ≡ true
    → chosen_packets options content ≡ ok packets
    → Delivers server (chosen_flags options content) packets (run options content server)
unfolding run exchange
run-Delivers options content server packets taken chosen =
    let flags = chosen_flags options content in
    let (events, rest) = send_packets flags (length packets) 1 packets server.answers in
    let got = receive-IsReceived rest in
    record {
      transfers = events;
      response = got.response;
      runs = rw (chosen, taken, got.runs) refl;
      scheduled =
          steps_of-send_packets flags (length packets) 1 packets server.answers (omega arith);
    }

-- `send-test-case.py --fuzzer-input`
abbrev pub whole_input : Options
whole_input = record { packet = none; fuzzer_input = true }
