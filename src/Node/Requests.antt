-- ===== src/Node/Requests.antt =====
-- The requests of src/node_client.cpp, and the chain's events.
pub mod Paging
pub mod Uses
pub mod Closing
use Prim.Native.String.{String}
use scrig.Base.{
  ℕ, zero, suc, ◌+◌, ◌%◌, ◌^◌, Bool, true, false, Option, none, some, List, [], ◌∷◌, ◌++◌, length,
  leb,
}
use scrig.Base.Bytes.{Bytes, bytes_eq, codes}
use scrig.Base.Fault.{Error, runtime_error, rounds_exhausted, Result, ok, throw, traverse}
use scrig.Base.Action.{Outcome, value, throws, Action, ◌>>=◌, ◌>>◌, give, raise, get, modify}
use scrig.Types.{Hash, PublicKey, DifficultyTarget, Transaction, Block, ChainEvent}
use scrig.Json.{
  Doubles, JsonValue, null, uint64, string, object, JsonObject, is_null, as_uint64, as_array,
  as_object, find_field,
}
use scrig.Json.Printer.{to_json}
use scrig.Codec.{
  elements, object_of, hash_to_json, hash_from_json, public_key_to_json,
  difficulty_target_from_json, transaction_from_json, block_to_json, block_from_json,
  chain_event_from_json,
}
use scrig.Node.{
  NodeClient, NodeAction, NodeLink, NodeConnection, refused, accepted, lift, send_request,
  ensure_open, ensure_handshake, write_message, closing, decode_next_message,
}

pub record DifficultyInfo : Type 0 where
  pub transaction_difficulty : DifficultyTarget
  pub block_difficulty : DifficultyTarget

pub record MempoolPage : Type 0 where
  pub mempool : List Transaction
  pub next_page : Option ℕ

abbrev found_or : Option JsonValue → String → Result JsonValue
found_or (some v) message = ok v
found_or none message = throw (runtime_error message)

unfoldable pub get_variant_payload : (response : JsonValue) → (variant : Bytes) → Result JsonValue
get_variant_payload response variant = elim response [
  | object obj ↦ found_or (find_field obj variant) "unexpected response variant"
  | _ ↦ throw (runtime_error "response is not an object")
]

-- A request with one field, whose value has one field.
abbrev request_of : (variant key : Bytes) → JsonValue → JsonValue
request_of variant key payload =
    object (object_of ((variant, object (object_of ((key, payload) ∷ []))) ∷ []))

-- An absent field and null are both no value.
abbrev non_null : Option JsonValue → Option JsonValue
non_null none = none
non_null (some v) = elim (is_null v) [ true ↦ none | false ↦ some v ]

-- The bytes that the connections still to come will bring.
abbrev pub waiting : List NodeConnection → ℕ
waiting [] = 0
waiting (refused text ∷ more) = waiting more
waiting (accepted link ∷ more) = length link.incoming + waiting more

-- The most requests that are answered: an answer has four bytes at least.
abbrev pub answer_bound : NodeClient → ℕ
answer_bound s =
    elim s.socket [ some link ↦ length link.incoming | none ↦ 0 ] + waiting s.connections

module _ (doubles : Doubles) where
  -- The payload of the reply, as an object.
  unfoldable pub ask : JsonValue → (variant : Bytes) → NodeAction JsonObject
  unfolding send_request get_variant_payload
  ask request variant = do
    response ← send_request doubles request
    payload ← lift (get_variant_payload response variant)
    lift (as_object payload)

  unfoldable pub uint64_of : JsonObject → (key : Bytes) → String → Result ℕ
  uint64_of payload key message = elim (found_or (find_field payload key) message) [
    | ok v ↦ as_uint64 doubles v
    | throw error ↦ throw error
  ]

  unfoldable pub height : NodeAction ℕ
  unfolding ask uint64_of
  height = do
    payload ← ask (string (codes "Height")) (codes "Height")
    lift (uint64_of payload (codes "height") "missing response Height.height")

  unfoldable pub balance : (address : PublicKey) → NodeAction ℕ
  unfolding ask uint64_of
  balance address = do
    key ← lift (public_key_to_json address)
    payload ← ask (request_of (codes "Balance") (codes "address") key) (codes "Balance")
    lift (uint64_of payload (codes "balance") "missing response Balance.balance")

  unfoldable pub difficulty : NodeAction DifficultyInfo
  unfolding ask
  difficulty = do
    payload ← ask (string (codes "Difficulty")) (codes "Difficulty")
    tx ← lift (
        found_or (find_field payload (codes "transaction_difficulty"))
          "missing response difficulty fields")
    block ← lift (
        found_or (find_field payload (codes "block_difficulty"))
          "missing response difficulty fields")
    transaction_difficulty ← lift (difficulty_target_from_json doubles tx)
    block_difficulty ← lift (difficulty_target_from_json doubles block)
    give (record {
      transaction_difficulty = transaction_difficulty;
      block_difficulty = block_difficulty;
    })

  unfoldable pub reward : NodeAction ℕ
  unfolding ask uint64_of
  reward = do
    payload ← ask (string (codes "Reward")) (codes "Reward")
    lift (uint64_of payload (codes "reward") "missing response Reward.reward")

  unfoldable pub block_hash : (height : ℕ) → NodeAction (Option Hash)
  unfolding ask
  block_hash height_value = do
    payload ←
        ask (request_of (codes "BlockHash") (codes "height") (uint64 height_value))
          (codes "BlockHash")
    elim (non_null (find_field payload (codes "hash"))) [
      | none ↦ give none
      | some v ↦ do hash ← lift (hash_from_json v); give (some hash)
    ]

  unfoldable pub block_by_hash : Hash → NodeAction (Option Block)
  unfolding ask
  block_by_hash hash = do
    key ← lift (hash_to_json hash)
    payload ← ask (request_of (codes "Block") (codes "block_hash") key) (codes "Block")
    elim (non_null (find_field payload (codes "block"))) [
      | none ↦ give none
      | some v ↦ do block ← lift (block_from_json doubles v); give (some block)
    ]

  unfoldable pub mempool_page : (page : ℕ) → NodeAction MempoolPage
  unfolding ask
  mempool_page page = do
    payload ← ask (request_of (codes "Mempool") (codes "page") (uint64 page)) (codes "Mempool")
    pool ← lift (found_or (find_field payload (codes "mempool")) "missing response Mempool.mempool")
    txs ← lift (as_array pool)
    mempool ← lift (traverse (transaction_from_json doubles) (elements txs))
    elim (non_null (find_field payload (codes "next_page"))) [
      | none ↦ give (record { mempool = mempool; next_page = none })
      | some v ↦ do
        next ← lift (as_uint64 doubles v)
        give (record { mempool = mempool; next_page = some (next % 2 ^ 32) })
    ]

  -- while (true) of mempool_all
  unfoldable pub mempool_loop :
      (rounds : ℕ) → (max_pages page : ℕ) → (all : List Transaction) → NodeAction (List Transaction)
  unfolding mempool_page
  mempool_loop zero max_pages page all = raise rounds_exhausted
  mempool_loop (suc rounds) max_pages page all = do
    result ← mempool_page page
    elim result.next_page [
      | none ↦ give (all ++ result.mempool)
      | some next ↦ elim (leb max_pages page) [
        | true ↦ give (all ++ result.mempool)
        | false ↦ mempool_loop rounds max_pages next (all ++ result.mempool)
      ]
    ]

  unfoldable pub mempool_all : (max_pages : ℕ) → NodeAction (List Transaction)
  unfolding mempool_loop
  mempool_all max_pages s = mempool_loop (answer_bound s + 1) max_pages 0 [] s

  unfoldable pub live_transaction_difficulty : NodeAction DifficultyTarget
  unfolding ask
  live_transaction_difficulty = do
    payload ← ask (string (codes "LiveTransactionDifficulty")) (codes "LiveTransactionDifficulty")
    v ← lift (
        found_or (find_field payload (codes "live_difficulty"))
          "missing response LiveTransactionDifficulty.live_difficulty")
    lift (difficulty_target_from_json doubles v)

  -- What submit_block returns for a status: an object is accepted if it has a field `Ok`.
  unfoldable pub is_accepted : (status : JsonValue) → Bool
  is_accepted status = elim status [
    | string text ↦ bytes_eq text (codes "Ok")
    | object fields ↦ elim (find_field fields (codes "Ok")) [ some _ ↦ true | none ↦ false ]
    | _ ↦ false
  ]

  unfoldable pub submit_block : Block → NodeAction Bool
  unfolding ask is_accepted
  submit_block block = do
    new_block ← lift (block_to_json block)
    payload ← ask (request_of (codes "NewBlock") (codes "new_block") new_block) (codes "NewBlock")
    status ←
        lift (found_or (find_field payload (codes "status")) "missing response NewBlock.status")
    give (is_accepted status)

  unfoldable pub subscribe_chain_events : NodeAction (Unit {0})
  unfolding ensure_open ensure_handshake write_message
  subscribe_chain_events = do
    _ ← ensure_open
    _ ← ensure_handshake
    _ ← λ s.
        closing
          (write_message (to_json doubles false 2 (string (codes "SubscribeToChainEvents"))) s)
    modify (λ s. record s { subscribed = true })

  unfoldable pub wait_chain_event : NodeAction ChainEvent
  unfolding decode_next_message get_variant_payload
  wait_chain_event = do
    s ← get
    elim s.subscribed [
      | false ↦ raise (runtime_error "chain event stream not subscribed")
      | true ↦ do
        response ← decode_next_message doubles
        payload_value ← lift (get_variant_payload response (codes "ChainEvent"))
        payload ← lift (as_object payload_value)
        event ←
            lift (found_or (find_field payload (codes "event")) "missing response ChainEvent.event")
        lift (chain_event_from_json doubles event)
    ]
