-- ===== src/Node.antt =====
-- NodeClient of src/node_client.cpp: its connection, and messages as frames of a length and a text.
-- A socket is what send_socket_data and recv_socket_data will report, in the order of the calls.
pub mod Requests
pub mod Frames
use scrig.Base.{
  ℕ, zero, suc, ◌≤◌, arith, ◌+◌, ◌-◌, ◌*◌, ◌/◌, ◌%◌, ◌^◌, Bool, true, false, ◌&&◌, not, Option,
  none, some, List, [], ◌∷◌, ◌++◌, length, take, drop, leb, ltb, if◌then◌else◌,
}
use scrig.Base.Bytes.{Bytes, be_value, codes}
use scrig.Base.Fault.{Error, runtime_error, system_error, Result, ok, throw}
use scrig.Base.Action.{Outcome, value, fails, throws, Action, ◌>>=◌, ◌>>◌, give, raise, get, modify}
use scrig.Types.{PublicKey, DifficultyTarget}
use scrig.Json.{Doubles, JsonValue}
use scrig.Json.Parser.{parse_json}
use scrig.Json.Printer.{to_json}

-- `sends` and `receives` have the most bytes that each call transfers, and behind their ends a
-- call transfers all that it can. `incoming` is what the node sends, `sent` what it was given.
pub record NodeLink : Type 0 where
  pub sends : List ℕ
  pub receives : List ℕ
  pub incoming : Bytes
  pub sent : Bytes

pub data NodeConnection : Type 0 where
  refused : (what : Bytes) → NodeConnection
  accepted : NodeLink → NodeConnection

-- `socket` is `none` for the invalid handle; `connections` are the results of the next calls of
-- connect_tcp_socket, and behind their end a connection is refused.
pub record NodeClient : Type 0 where
  pub socket : Option NodeLink
  pub connections : List NodeConnection
  pub subscribed : Bool
  pub pool_handshake_done : Bool
  pub pool_handshake_public : Option PublicKey

abbrev pub NodeAction : Type 0 → Type 0
NodeAction A = Action NodeClient A

abbrev pub lift : {A : Type 0} → Result A → NodeAction A
lift (ok a) = give a
lift (throw error) = raise error

-- The loop of write_all over the rest of its data: whether all was sent, the sends left, and what
-- the node was given. A send of nothing ends it.
unfoldable pub write_loop : (sends : List ℕ) → (data_left sent : Bytes) → Bool × List ℕ × Bytes
write_loop sends [] sent = (true, sends, sent)
write_loop [] (b ∷ rest) sent = (true, [], sent ++ b ∷ rest)
write_loop (zero ∷ sends) (b ∷ rest) sent = (false, sends, sent)
write_loop (suc n ∷ sends) (b ∷ rest) sent =
    write_loop sends (drop n rest) (sent ++ b ∷ take n rest)

unfoldable pub write_all : Bytes → NodeAction (Unit {0})
unfolding write_loop
write_all bytes s = elim s.socket [
  | none ↦ (throws (runtime_error "socket send failed"), s)
  | some link ↦
      let (all, sends, sent) = write_loop link.sends bytes link.sent in
      (
        if all then value tt else throws (runtime_error "socket send failed"),
        record s { socket = some (record link { sends = sends; sent = sent }) },
      )
]

-- What a call brings of what it may bring, of what is asked for and of what there is.
abbrev pub received : (n len available : ℕ) → ℕ
received n len available =
    if ltb len n
    then if ltb available len then available else len
    else if ltb available n
    then available
    else n

pub received-le :
    (n len available : ℕ)
    → (received n len available ≤ len) × (received n len available ≤ available)
received-le n len available = ground arith

-- The loop of read_all for `len` more bytes: what it has read, unless a call brings nothing, the
-- receives left, and what is still to come.
unfoldable pub read_loop :
    (receives : List ℕ) → (incoming : Bytes) → (len : ℕ) → Option Bytes × List ℕ × Bytes
read_loop receives incoming zero = (some [], receives, incoming)
read_loop receives [] (suc len) = (none, receives, [])
read_loop [] (b ∷ incoming) (suc len) =
    if leb len (length incoming)
    then (some (b ∷ take len incoming), [], drop len incoming)
    else (none, [], [])
read_loop (zero ∷ receives) (b ∷ incoming) (suc len) = (none, receives, b ∷ incoming)
read_loop (suc n ∷ receives) (b ∷ incoming) (suc len) =
    let count = received n len (length incoming) in
    let (more, left, rest) = read_loop receives (drop count incoming) (len - count) in
    (elim more [ some bytes ↦ some (b ∷ (take count incoming ++ bytes)) | none ↦ none ], left, rest)

unfoldable pub read_all : (len : ℕ) → NodeAction Bytes
unfolding read_loop
read_all len s = elim s.socket [
  | none ↦ (throws (runtime_error "socket recv failed"), s)
  | some link ↦
      let (result, receives, incoming) = read_loop link.receives link.incoming len in
      (
        elim result [
          | some bytes ↦ value bytes
          | none ↦ throws (runtime_error "socket recv failed")
        ],
        record s { socket = some (record link { receives = receives; incoming = incoming }) },
      )
]

-- The four bytes of read_u32_be, whose shifts add up to the number that they spell.
unfoldable pub read_u32_be : Bytes → ℕ
read_u32_be bytes = be_value bytes

unfoldable pub write_u32_be : (n : ℕ) → Bytes
write_u32_be n = n / 2 ^ 24 % 256 ∷ n / 2 ^ 16 % 256 ∷ n / 2 ^ 8 % 256 ∷ n % 256 ∷ []

unfoldable pub open_socket : NodeAction (Unit {0})
open_socket s = elim s.connections [
  | [] ↦ (throws (system_error []), s)
  | refused text ∷ more ↦ (throws (system_error text), record s { connections = more })
  | accepted link ∷ more ↦ (value tt, record s { socket = some link; connections = more })
]

abbrev pub without_socket : NodeClient → NodeClient
without_socket s = record s { socket = none; subscribed = false; pool_handshake_done = false }

unfoldable pub close_socket : NodeAction (Unit {0})
close_socket = modify without_socket

abbrev pub is_open : NodeClient → Bool
is_open s = elim s.socket [ some _ ↦ true | none ↦ false ]

-- if (socket_fd_ == kInvalidSocket) open_socket_locked();
unfoldable pub ensure_open : NodeAction (Unit {0})
unfolding open_socket
ensure_open s = elim (is_open s) [ true ↦ (value tt, s) | false ↦ open_socket s ]

-- catch (...) { close_socket_locked(); throw; }
abbrev pub closing : {A : Type 0} → Outcome A × NodeClient → Outcome A × NodeClient
closing (throws error, s) = (throws error, without_socket s)
closing (fails message, s) = (fails message, s)
closing (value a, s) = (value a, s)

unfoldable pub initialize_pool_handshake_locked :
    (miner_public : PublicKey) → NodeAction DifficultyTarget
unfolding write_all read_all
initialize_pool_handshake_locked miner_public = do
  _ ← write_all miner_public.bytes
  difficulty ← read_all 32
  _ ←
      modify
        (λ s. record s { pool_handshake_public = some miner_public; pool_handshake_done = true })
  give difficulty

unfoldable pub initialize_pool_handshake : (miner_public : PublicKey) → NodeAction DifficultyTarget
unfolding ensure_open initialize_pool_handshake_locked
initialize_pool_handshake miner_public =
    ensure_open >> initialize_pool_handshake_locked miner_public

-- The handshake that a new connection repeats.
unfoldable pub handshake_unless :
    (done : Bool) → (pool_handshake_public : Option PublicKey) → NodeAction (Unit {0})
unfolding initialize_pool_handshake_locked
handshake_unless done none s = (value tt, s)
handshake_unless true (some key) s = (value tt, s)
handshake_unless false (some key) s = (initialize_pool_handshake_locked key >> give tt) s

unfoldable pub ensure_handshake : NodeAction (Unit {0})
unfolding handshake_unless
ensure_handshake s = handshake_unless s.pool_handshake_done s.pool_handshake_public s

unfoldable pub connect : NodeAction (Unit {0})
unfolding ensure_open
connect = ensure_open

unfoldable pub disconnect : NodeAction (Unit {0})
unfolding close_socket
disconnect = close_socket

-- The two writes of a message: its length in 32 bits, and its text.
unfoldable pub write_message : (payload : Bytes) → NodeAction (Unit {0})
unfolding write_all write_u32_be
write_message payload = write_all (write_u32_be (length payload % 2 ^ 32)) >> write_all payload

module _ (doubles : Doubles) where
  unfoldable pub decode_next_message : NodeAction JsonValue
  unfolding read_all read_u32_be
  decode_next_message = do
    response_len_buf ← read_all 4
    response_buf ← read_all (read_u32_be response_len_buf)
    lift (parse_json doubles response_buf)

  unfoldable pub exchange : (payload : Bytes) → NodeAction JsonValue
  unfolding write_message decode_next_message
  exchange payload = write_message payload >> decode_next_message

  unfoldable pub send_request : JsonValue → NodeAction JsonValue
  unfolding ensure_open ensure_handshake exchange
  send_request request = do
    _ ← ensure_open
    _ ← ensure_handshake
    λ s. closing (exchange (to_json doubles false 2 request) s)
