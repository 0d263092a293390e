-- ===== src/Send/Main.antt =====
-- `receive`, `receive_some` and `main` of send-test-case.py.
pub mod Receive
pub mod Delivers
use lighttpd_fuzz.Base.{
  ℕ, zero, suc, ◌+◌, ◌-◌, ◌*◌, ◌/◌, String, List, [], ◌∷◌, ◌++◌, Bool, true, false, not, ◌&&◌, ◌||◌,
  ltb, ◌==◌, bit_and, is_empty, if◌then◌else◌, length, take, drop, Option, none, some, Result, ok,
  err, value_error, system_exit, os_error, diverged, ◌>>=◌,
}
use lighttpd_fuzz.Base.Bytes.{Bytes}
use lighttpd_fuzz.Base.Text.Int.{Signed}
use lighttpd_fuzz.Backend.Socket.{Arrival, recv_from}
use lighttpd_fuzz.Send.Packets.{fuzzer_packets}

abbrev pub limit : ℕ
limit = 1024 * 1024

abbrev pub or_end : Result Bytes → Bytes
or_end (ok content) = content
or_end (err e) = []

-- `sock.recv` as `receive` sees it: a timeout ends the loop as the end of the stream does.
abbrev pub recv_or_end : ℕ → List Arrival → Bytes × List Arrival
recv_or_end size arrivals = let (r, rest) = recv_from size arrivals in (or_end r, rest)

-- The `while` loop of `receive`: `size` bytes a round while there are fewer than `limit`. Each round but the
-- last brings a byte at least, so `limit` rounds are enough.
unfoldable pub receive_loop : ℕ → ℕ → ℕ → Bytes → List Arrival → Result Bytes × List Arrival
receive_loop limit size zero response arrivals =
    (if ltb (length response) limit then err diverged else ok response, arrivals)
receive_loop limit size (suc fuel) response arrivals =
    let (got, rest) = recv_or_end size arrivals in
    let next = receive_loop limit size fuel (response ++ got) rest in
    if ltb (length response) limit
    then (if is_empty got then (ok response, rest) else next)
    else (ok response, arrivals)

unfoldable pub receive : List Arrival → Result Bytes × List Arrival
receive arrivals = receive_loop limit 65536 limit [] arrivals

unfoldable pub receive_some : List Arrival → Bytes × List Arrival
receive_some arrivals = recv_or_end 8192 arrivals

-- What `main` does to be seen outside, in order; it sleeps for so many tenths of a millisecond.
pub data Event : Type 0 where
  sent : Bytes → Event
  slept : ℕ → Event
  announced : ℕ → ℕ → Event
  printed : Bytes → Event
  no_response : Event
  status : Bool → Event

-- The options that choose the packets.
pub record Options : Type 0 where
  pub packet : Option Signed
  pub fuzzer_input : Bool

abbrev pub takes_apart : Options → Bool
takes_apart options = elim (options.packet) [ some n ↦ true | none ↦ options.fuzzer_input ]

unfoldable pub chosen_flags : Options → Bytes → ℕ
chosen_flags options [] = 0
chosen_flags options (flags ∷ rest) = if takes_apart options then flags else 0

-- `packets[args.packet - 1]`
abbrev pub nth_of : ℕ → List Bytes → Result (List Bytes)
nth_of n packets =
    if ltb (length packets) n
    then err (value_error "fuzzer input contains only len(packets) packets")
    else ok (take 1 (drop (n - 1) packets))

-- The packet that an option names, and the tests before it.
unfoldable pub one_packet : Signed → Bytes → Result (List Bytes)
one_packet (negative, n) content =
    if negative || n == 0
    then err (system_exit "--packet must be at least 1")
    else (do packets ← fuzzer_packets content; nth_of n packets)

unfoldable pub chosen_packets : Options → Bytes → Result (List Bytes)
chosen_packets options content = elim (options.packet) [
  | some n ↦ one_packet n content
  | none ↦ if options.fuzzer_input then fuzzer_packets content else ok (content ∷ [])
]

-- The `sendall` calls for a packet.
unfoldable pub send_packet : ℕ → Bytes → List Event
send_packet flags packet =
    let half = length packet / 2 in
    if not (bit_and flags 0x01 == 0) && ltb 1 (length packet)
    then sent (take half packet) ∷ slept 1 ∷ sent (drop half packet) ∷ []
    else sent packet ∷ []

-- What follows a packet: a response is read, or a pause is made, if it is not the last one.
unfoldable pub between : ℕ → Bool → List Arrival → List Event × List Arrival
between flags false arrivals = ([], arrivals)
between flags true arrivals =
    let (response, rest) = receive_some arrivals in
    if bit_and flags 0x04 == 0 then (slept 10 ∷ [], arrivals) else (printed response ∷ [], rest)

-- The `for` loop over `enumerate(packets, 1)`.
unfoldable pub send_packets : ℕ → ℕ → ℕ → List Bytes → List Arrival → List Event × List Arrival
send_packets flags total number [] arrivals = ([], arrivals)
send_packets flags total number (packet ∷ packets) arrivals =
    let (waits, rest) = between flags (ltb number total) arrivals in
    let (events, rest') = send_packets flags total (number + 1) packets rest in
    (announced number (length packet) ∷ (send_packet flags packet ++ (waits ++ events)), rest')

-- `receive` and what is printed of it.
abbrev pub show : Bytes → Event
show response = if is_empty response then no_response else printed response

-- How the server behaves: whether it takes the connection, what it answers, and whether it takes a second one.
pub record Server : Type 0 where
  pub accepts : Bool
  pub answers : List Arrival
  pub survives : Bool

-- The first `with connect(…)` block.
unfoldable pub exchange : ℕ → List Bytes → Server → Result (List Event)
exchange flags packets server =
    let (events, rest) = send_packets flags (length packets) 1 packets server.answers in
    let (r, left) = receive rest in
    if server.accepts then (do response ← r; ok (events ++ show response ∷ [])) else err os_error

-- `main` after its arguments are parsed and the file is read: the events, and the exit status.
unfoldable pub run : Options → Bytes → Server → Result (List Event × ℕ)
run options content server = do
  packets ← chosen_packets options content
  events ← exchange (chosen_flags options content) packets server
  ok (events ++ status server.survives ∷ [], if server.survives then 0 else 1)
