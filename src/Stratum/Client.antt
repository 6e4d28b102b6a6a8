-- ===== src/Stratum/Client.antt =====
-- StratumClient of src/stratum_client.cpp: its state, lines, messages, requests and the queue of
-- jobs. A method returns, fails with its message, or throws.
pub mod Ends
pub mod Answers
pub mod Session
pub mod Reply
pub mod Unread
use scrig.Base.{
  ℕ, zero, suc, ◌+◌, ◌%◌, ◌^◌, Bool, true, false, ◌||◌, Option, none, some, List, [], ◌∷◌, ◌++◌,
  length, if◌then◌else◌,
}
use scrig.Base.Bytes.{Bytes, codes, bytes_eq}
use scrig.Base.Fault.{
  Error, runtime_error, missing_field, json_error, json_error_at, system_error, rounds_exhausted,
  Result, ok, throw,
}
use scrig.Base.Action.{
  Outcome, value, fails, throws, Action, ◌>>=◌, ◌>>◌, give, fail, raise, get, modify, attempt,
  Tried, done, failed,
}
use scrig.Json.{
  Doubles, JsonValue, null, uint64, string, array, object, JsonArray, nil, cons, JsonObject, empty,
  as_double, find_field,
}
use scrig.Json.Text.{decimal}
use scrig.Json.Parser.{parse_json}
use scrig.Json.Printer.{to_json}
use scrig.Codec.{object_of}
use scrig.Stratum.Text.{find_string, parse_json_rpc_id, assign}
use scrig.Stratum.Job.{StratumJob, parse_job_from_message}
use scrig.Stratum.Network.{
  Arrival, silence, received, Link, Connection, refused, accepted, send_loop, LineResult, line,
  timed_out, closed, line_loop, arriving,
}

pub data Mode : Type 0 where
  unknown login_submit mining_submit mining_auth_submit_short login_caps_submit : Mode

-- `socket` is `none` for the invalid handle; `connections` are the results of the next calls of
-- connect_tcp_socket, and behind their end a connection is refused.
pub record StratumClient : Type 0 where
  pub socket : Option Link
  pub connections : List Connection
  pub next_request_id : ℕ
  pub mode : Mode
  pub session_id : Option Bytes
  pub difficulty : Option ℕ
  pub queued_jobs : List StratumJob
  pub rx_buffer : Bytes

-- ex.what()
unfoldable pub what : Error → Bytes
what (runtime_error text) = codes text
what (missing_field key) = codes "missing field: " ++ key
what (json_error text) = codes text
what (json_error_at text pos) = codes text ++ codes " at position " ++ decimal pos
what (system_error text) = text
what rounds_exhausted = []

abbrev pub StratumAction : Type 0 → Type 0
StratumAction A = Action StratumClient A

unfoldable pub connect : StratumAction (Unit {0})
connect s = elim s.socket [
  | some _ ↦ (value tt, s)
  | none ↦ elim s.connections [
    | [] ↦ (throws (system_error []), s)
    | refused text ∷ more ↦ (throws (system_error text), record s { connections = more })
    | accepted link ∷ more ↦ (value tt, record s { socket = some link; connections = more })
  ]
]

unfoldable pub disconnect : StratumAction (Unit {0})
disconnect = modify λ s. record s {
  socket = none;
  rx_buffer = [];
  queued_jobs = [];
  difficulty = none;
  session_id = none;
  mode = unknown;
}

-- The catch of a std::exception.
abbrev pub catch_reconnect : Outcome (Unit {0}) × StratumClient → Outcome (Unit {0}) × StratumClient
catch_reconnect (throws error, s) = (fails (codes "reconnect failed: " ++ what error), s)
catch_reconnect (fails message, s) = (fails message, s)
catch_reconnect (value a, s) = (value a, s)

unfoldable pub reconnect : StratumAction (Unit {0})
unfolding connect disconnect what
reconnect s = catch_reconnect ((disconnect >> connect) s)

pub record ParsedMessage : Type 0 where
  pub message : JsonValue
  pub id : Option Bytes
  pub method : Option Bytes

abbrev is_set_difficulty : (method : Bytes) → Bool
is_set_difficulty method =
    bytes_eq method (codes "mining.set_difficulty") || bytes_eq method (codes "set_difficulty")

abbrev pub message_id : JsonObject → Option Bytes
message_id obj = elim (find_field obj (codes "id")) [ some id ↦ parse_json_rpc_id id | none ↦ none ]

-- The job of a message, behind the queue.
abbrev pub push_job : Option StratumJob → List StratumJob → List StratumJob
push_job none jobs = jobs
push_job (some job) jobs = jobs ++ job ∷ []

unfoldable pub request_object :
    (id : ℕ) → (method : Bytes) → (params : JsonValue) → (include_jsonrpc : Bool) → JsonValue
request_object id method params include_jsonrpc =
    let request =
      object_of (
        (codes "id", uint64 id)
        ∷ (codes "method", string method)
        ∷ (codes "params", params)
        ∷ []) in
    object
      (if include_jsonrpc then assign request (codes "jsonrpc") (string (codes "2.0")) else request)

-- A bound on the messages to come: a message has a byte at least.
unfoldable pub message_bound : StratumClient → ℕ
message_bound s = elim s.socket [
  | none ↦ 0
  | some link ↦ length s.rx_buffer + arriving link.arrivals
]

abbrev pub is_reply : (id : Option Bytes) → (req_id : Bytes) → Bool
is_reply none req_id = false
is_reply (some id) req_id = bytes_eq id req_id

abbrev pub has_jobs : StratumClient → Bool
has_jobs s = elim s.queued_jobs [ [] ↦ false | _ ∷ _ ↦ true ]

-- The end of a round that has no reply: a queued job ends the loop with the value null.
abbrev or_job : StratumAction JsonValue → StratumAction JsonValue
or_job otherwise s = elim (has_jobs s) [ true ↦ (value null, s) | false ↦ otherwise s ]

-- The front of the queue, or else what follows.
abbrev pub pop_front :
    (jobs : List StratumJob) → StratumAction StratumJob → StratumAction StratumJob
pop_front [] otherwise s = otherwise s
pop_front (job ∷ jobs) otherwise s = (value job, record s { queued_jobs = jobs })

unfoldable pub pop_or : StratumAction StratumJob → StratumAction StratumJob
pop_or otherwise s = pop_front s.queued_jobs otherwise s

abbrev pub read_difficulty : Result ℕ → Result (Option ℕ)
read_difficulty (ok d) = ok (some d)
read_difficulty (throw error) = throw error

module _ (doubles : Doubles) where
  -- The Boolean that send_json_line returns.
  unfoldable pub send_json_line : JsonValue → StratumAction Bool
  unfolding send_loop
  send_json_line message s = elim s.socket [
    | none ↦ (value false, s)
    | some link ↦
        let (sent_all, sends, sent) =
          send_loop link.sends (to_json doubles false 2 message ++ 10 ∷ []) link.sent in
        (value sent_all, record s { socket = some (record link { sends = sends; sent = sent }) })
  ]

  -- The catch around parse_json.
  unfoldable pub parse_line : Bytes → Outcome JsonValue
  unfolding what
  parse_line text = elim (parse_json doubles text) [
    | ok message ↦ value message
    | throw error ↦ fails (codes "invalid stratum JSON: " ++ what error)
  ]

  unfoldable pub line_outcome : LineResult → Outcome JsonValue
  unfolding parse_line
  line_outcome (line text) = parse_line text
  line_outcome timed_out = fails (codes "timeout waiting for pool message")
  line_outcome closed = fails (codes "pool connection closed")

  unfoldable pub read_json_line : StratumAction JsonValue
  unfolding line_loop line_outcome
  read_json_line s = elim s.socket [
    | none ↦ (fails (codes "not connected"), s)
    | some link ↦
        let (result, arrivals, rx_buffer) = line_loop link.arrivals s.rx_buffer in
        (
          line_outcome result,
          record s { socket = some (record link { arrivals = arrivals }); rx_buffer = rx_buffer },
        )
  ]

  abbrev pub field_difficulty : Option JsonValue → (difficulty : Option ℕ) → Result (Option ℕ)
  field_difficulty (some v) difficulty = read_difficulty (as_double doubles v)
  field_difficulty none difficulty = ok difficulty

  -- The difficulty in the parameters of a notification of it; as_double may throw.
  unfoldable pub announced_difficulty :
      (params : Option JsonValue) → (difficulty : Option ℕ) → Result (Option ℕ)
  announced_difficulty params difficulty = elim params [
    | some (array (cons first rest)) ↦ read_difficulty (as_double doubles first)
    | some (object fields) ↦ field_difficulty (find_field fields (codes "difficulty")) difficulty
    | _ ↦ ok difficulty
  ]

  unfoldable pub new_difficulty : JsonObject → (difficulty : Option ℕ) → Result (Option ℕ)
  unfolding announced_difficulty
  new_difficulty obj difficulty = elim (find_string obj (codes "method")) [
    | none ↦ ok difficulty
    | some method ↦
        if is_set_difficulty method
        then announced_difficulty (find_field obj (codes "params")) difficulty
        else ok difficulty
  ]

  -- What read_message makes of a message: the difficulty first, and the job under it.
  unfoldable pub note_message : JsonValue → StratumAction ParsedMessage
  unfolding new_difficulty
  note_message message s = elim message [
    | object obj ↦ elim (new_difficulty obj s.difficulty) [
      | throw error ↦ (throws error, s)
      | ok difficulty ↦ (
        value (record {
          message = object obj;
          id = message_id obj;
          method = find_string obj (codes "method");
        }),
        record s {
          difficulty = difficulty;
          queued_jobs =
              push_job (parse_job_from_message doubles (object obj) difficulty) s.queued_jobs;
        },
      )
    ]
    | other ↦ (value (record { message = other; id = none; method = none }), s)
  ]

  unfoldable pub read_message : StratumAction ParsedMessage
  unfolding read_json_line note_message
  read_message = do message ← read_json_line; note_message message

  -- next_request_id_++ and the line of the request; the result is the id.
  unfoldable pub send_request :
      (method : Bytes) → (params : JsonValue) → (include_jsonrpc : Bool) → StratumAction ℕ
  unfolding send_json_line request_object
  send_request method params include_jsonrpc = do
    s ← get
    _ ← modify (λ t. record t { next_request_id = (t.next_request_id + 1) % 2 ^ 64 })
    sent ← send_json_line (request_object s.next_request_id method params include_jsonrpc)
    if sent then give s.next_request_id else fail (codes "failed to send pool request")

  -- while (true) of request_response
  unfoldable pub reply_loop : (rounds : ℕ) → (req_id : Bytes) → StratumAction JsonValue
  unfolding read_message
  reply_loop zero req_id = raise rounds_exhausted
  reply_loop (suc rounds) req_id = do
    msg ← read_message
    elim (is_reply msg.id req_id) [ true ↦ give msg.message | false ↦ reply_loop rounds req_id ]

  unfoldable pub request_response :
      (method : Bytes) → (params : JsonValue) → (include_jsonrpc : Bool) → StratumAction JsonValue
  unfolding send_request reply_loop message_bound
  request_response method params include_jsonrpc = do
    id ← send_request method params include_jsonrpc
    s ← get
    reply_loop (message_bound s + 1) (decimal id)

  -- while (true) of request_response_or_job
  unfoldable pub reply_or_job_loop : (rounds : ℕ) → (req_id : Bytes) → StratumAction JsonValue
  unfolding read_message
  reply_or_job_loop zero req_id = raise rounds_exhausted
  reply_or_job_loop (suc rounds) req_id = do
    r ← attempt read_message
    elim r [
      | failed message ↦ or_job (fail message)
      | done msg ↦ elim (is_reply msg.id req_id) [
        | true ↦ give msg.message
        | false ↦ or_job (reply_or_job_loop rounds req_id)
      ]
    ]

  unfoldable pub request_response_or_job :
      (method : Bytes) → (params : JsonValue) → (include_jsonrpc : Bool) → StratumAction JsonValue
  unfolding send_request reply_or_job_loop message_bound
  request_response_or_job method params include_jsonrpc = do
    id ← send_request method params include_jsonrpc
    s ← get
    reply_or_job_loop (message_bound s + 1) (decimal id)

  -- while (true) of poll_job
  unfoldable pub poll_loop : (rounds : ℕ) → StratumAction StratumJob
  unfolding read_message pop_or
  poll_loop zero = raise rounds_exhausted
  poll_loop (suc rounds) = do _ ← read_message; pop_or (poll_loop rounds)

  unfoldable pub poll_job : StratumAction StratumJob
  unfolding poll_loop pop_or message_bound
  poll_job = pop_or (λ s. poll_loop (message_bound s + 1) s)
