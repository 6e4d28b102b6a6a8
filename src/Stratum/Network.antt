-- ===== src/Stratum/Network.antt =====
-- The pool as the client's sockets see it. A connection is what connect_tcp_socket, send_socket_data,
-- select and recv_socket_data will report, in the order of the calls.
pub mod Lines
pub mod Progress
pub mod Stream
use scrig.Base.{
  ℕ, zero, suc, ◌+◌, Bool, true, false, Option, none, some, List, [], ◌∷◌, ◌++◌, length, take, drop,
  ◌==◌, if◌then◌else◌,
}
use scrig.Base.Bytes.{Bytes}
use scrig.Stratum.{trim}

-- A wait that times out, or one that is followed by recv: no bytes mean that the pool closed.
pub data Arrival : Type 0 where
  silence : Arrival
  received : Bytes → Arrival

-- `sends` has the number of bytes that each send takes, at most, and `arrivals` what each wait
-- finds. Behind the end of these lists a send takes all and a wait times out. `sent` has the bytes
-- that the pool was given.
pub record Link : Type 0 where
  pub sends : List ℕ
  pub arrivals : List Arrival
  pub sent : Bytes

pub data Connection : Type 0 where
  refused : (what : Bytes) → Connection
  accepted : Link → Connection

-- The loop of send_json_line over the rest of the line: its result, the sends left, and what the
-- pool was given. A send of nothing ends it.
unfoldable pub send_loop : (sends : List ℕ) → (line sent : Bytes) → Bool × List ℕ × Bytes
send_loop sends [] sent = (true, sends, sent)
send_loop [] (c ∷ line) sent = (true, [], sent ++ c ∷ line)
send_loop (zero ∷ sends) (c ∷ line) sent = (false, sends, sent)
send_loop (suc n ∷ sends) (c ∷ line) sent = send_loop sends (drop n line) (sent ++ c ∷ take n line)

-- The first line of a buffer that is not blank, trimmed, with what follows it; or what is left
-- where no line is complete.
pub data Scan : Type 0 where
  found : (line rest : Bytes) → Scan
  pending : (rest : Bytes) → Scan

-- `line` has the characters since the last line end.
unfoldable pub scan : (buffer : Bytes) → (line : Bytes) → Scan
unfolding trim
scan [] line = pending line
scan (c ∷ buffer) line = elim (c == 10) [
  | false ↦ scan buffer (line ++ c ∷ [])
  | true ↦ elim (trim line) [ [] ↦ scan buffer [] | d ∷ text ↦ found (d ∷ text) buffer ]
]

-- What read_json_line ends with, before the line is parsed.
pub data LineResult : Type 0 where
  line : Bytes → LineResult
  timed_out : LineResult
  closed : LineResult

-- while (true): the buffer is searched, and else one arrival is appended.
unfoldable pub line_loop :
    (arrivals : List Arrival) → (rx_buffer : Bytes) → LineResult × List Arrival × Bytes
unfolding scan
line_loop [] rx_buffer = elim (scan rx_buffer []) [
  | found text rest ↦ (line text, [], rest)
  | pending rest ↦ (timed_out, [], rest)
]
line_loop (silence ∷ more) rx_buffer = elim (scan rx_buffer []) [
  | found text rest ↦ (line text, silence ∷ more, rest)
  | pending rest ↦ (timed_out, more, rest)
]
line_loop (received [] ∷ more) rx_buffer = elim (scan rx_buffer []) [
  | found text rest ↦ (line text, received [] ∷ more, rest)
  | pending rest ↦ (closed, more, rest)
]
line_loop (received (c ∷ chunk) ∷ more) rx_buffer = elim (scan rx_buffer []) [
  | found text rest ↦ (line text, received (c ∷ chunk) ∷ more, rest)
  | pending rest ↦ line_loop more (rest ++ c ∷ chunk)
]

-- The bytes that a link will still bring, and one more for each arrival.
abbrev pub arriving : List Arrival → ℕ
arriving [] = 0
arriving (silence ∷ more) = suc (arriving more)
arriving (received chunk ∷ more) = suc (length chunk + arriving more)
