-- ===== src/Node/Requests/Uses.antt =====
-- The bytes that the requests of src/node_client.cpp leave to come.
use scrig.Base.{
  ℕ, zero, suc, ◌+◌, ◌-◌, ◌≤◌, ◌%◌, ◌^◌, Bool, true, false, Option, none, some, List, [], ◌∷◌, ◌++◌,
  length, Bool-cases, take, drop, leb, length-drop, Option-cases, List-cases, ◌≡◌, inl, inr, refl,
  arith,
}
use scrig.Base.Bytes.{Bytes, codes}
use scrig.Base.Fault.{runtime_error, Result, ok, throw, traverse}
use scrig.Base.Action.{Outcome, value, fails, throws, continue_with, give, ◌>>=◌}
use scrig.Types.{PublicKey, Transaction}
use scrig.Json.{Doubles, JsonValue, uint64, as_uint64, as_array, as_object, find_field}
use scrig.Json.Parser.{parse_json}
use scrig.Json.Printer.{to_json}
use scrig.Codec.{elements, transaction_from_json}
use scrig.Node.{
  NodeLink, refused, accepted, NodeClient, NodeAction, lift, write_loop, write_all, received,
  received-le, read_loop, read_all, read_u32_be, write_u32_be, open_socket, ensure_open,
  initialize_pool_handshake_locked, handshake_unless, ensure_handshake, closing, write_message,
  decode_next_message, exchange, send_request,
}
use scrig.Node.Requests.{
  MempoolPage, waiting, answer_bound, get_variant_payload, request_of, found_or, non_null, ask,
  mempool_page,
}

-- A value leaves so many bytes less to come.
abbrev pub Uses : {A : Type 0} → (k : ℕ) → Outcome A × NodeClient → (before : ℕ) → Type 0
Uses k (value a, t) before = answer_bound t + k ≤ before
Uses k (fails message, t) before = Unit
Uses k (throws error, t) before = Unit

module _ {A : Type 0} {B : Type 0} where
  then-Uses :
      (j k : ℕ) (o : Outcome A × NodeClient) (f : A → NodeAction B) (n : ℕ)
      → Uses j o n
      → ((a : A) (t : NodeClient) → Uses k (f a t) (answer_bound t))
      → Uses (j + k) (continue_with o f) n
  then-Uses j k (value a, t) f n h next = wider (f a t) (next a t)
    where
      wider : (o : Outcome B × NodeClient) → Uses k o (answer_bound t) → Uses (j + k) o n
      wider (value b, u) g = omega (arith, g, h)
      wider (fails message, u) g = tt
      wider (throws error, u) g = tt
  then-Uses j k (fails message, t) f n h next = tt
  then-Uses j k (throws error, t) f n h next = tt

lift-Uses : {A : Type 0} (r : Result A) (t : NodeClient) → Uses 0 (lift r t) (answer_bound t)
lift-Uses (ok a) t = omega arith
lift-Uses (throw error) t = tt

closing-Uses :
    {A : Type 0} (k n : ℕ) (o : Outcome A × NodeClient) → Uses k o n → Uses k (closing o) n
closing-Uses k n (value a, t) h = h
closing-Uses k n (fails message, t) h = tt
closing-Uses k n (throws error, t) h = tt

pub le_of_leb : (a b : ℕ) → leb a b ≡ true → a ≤ b
le_of_leb a b h = ground arith

abbrev Consumes : (len before : ℕ) → Option Bytes × List ℕ × Bytes → Type 0
Consumes len before (some bytes, left, rest) = length rest + len ≤ before
Consumes len before (none, left, rest) = Unit

read_loop-Consumes :
    (receives : List ℕ) (incoming : Bytes) (len : ℕ)
    → Consumes len (length incoming) (read_loop receives incoming len)
unfolding read_loop
read_loop-Consumes [] incoming zero = omega arith
read_loop-Consumes (n ∷ receives) incoming zero = omega arith
read_loop-Consumes [] [] (suc len) = tt
read_loop-Consumes (n ∷ receives) [] (suc len) = tt
read_loop-Consumes [] (b ∷ incoming) (suc len) = elim (Bool-cases (leb len (length incoming))) [
  | inl e ↦ rw e (omega (arith, length-drop len incoming, le_of_leb len (length incoming) e))
  | inr e ↦ rw e tt
]
read_loop-Consumes (zero ∷ receives) (b ∷ incoming) (suc len) = tt
read_loop-Consumes (suc n ∷ receives) (b ∷ incoming) (suc len) =
    let count = received n len (length incoming) in
    after (read_loop receives (drop count incoming) (len - count))
      (read_loop-Consumes receives (drop count incoming) (len - count))
  where
    after :
        (r : Option Bytes × List ℕ × Bytes)
        → (let count = received n len (length incoming) in
            Consumes (len - count) (length (drop count incoming)) r)
        → Consumes (suc len) (suc (length incoming)) (
          elim r.0 [
            | some bytes ↦ some (b ∷ (take (received n len (length incoming)) incoming ++ bytes))
            | none ↦ none
          ],
          r.1,
          r.2,
        )
    after (some bytes, left, rest) h =
        let (le, le') = received-le n len (length incoming) in
        omega (arith, h, le, le', length-drop (received n len (length incoming)) incoming)
    after (none, left, rest) h = tt

read_all-Uses : (len : ℕ) (s : NodeClient) → Uses len (read_all len s) (answer_bound s)
unfolding read_all
read_all-Uses len s = elim (Option-cases s.socket) [
  | inl e ↦ rw (e, read_all) tt
  | inr (link, e) ↦
      rw (e, read_all)
        (after link (read_loop link.receives link.incoming len)
          (read_loop-Consumes link.receives link.incoming len))
]
  where
    after :
        (link : NodeLink) (r : Option Bytes × List ℕ × Bytes)
        → Consumes len (length link.incoming) r
        → Uses len
            (
              elim r.0 as (λ _. Outcome Bytes) [
                | some bytes ↦ value bytes
                | none ↦ throws (runtime_error "socket recv failed")
              ],
              record s { socket = some (record link { receives = r.1; incoming = r.2 }) },
            )
            (length link.incoming + waiting s.connections)
    after link (some bytes, left, rest) h = omega (arith, h)
    after link (none, left, rest) h = tt

write_all-Uses : (bytes : Bytes) (s : NodeClient) → Uses 0 (write_all bytes s) (answer_bound s)
unfolding write_all
write_all-Uses bytes s = elim (Option-cases s.socket) [
  | inl e ↦ rw (e, write_all) tt
  | inr (link, e) ↦ elim (Bool-cases (write_loop link.sends bytes link.sent).0) [
    | inl b ↦ rw (e, write_all, b) (omega arith)
    | inr b ↦ rw (e, write_all, b) tt
  ]
]

open_socket-Uses : (s : NodeClient) → s.socket ≡ none → Uses 0 (open_socket s) (answer_bound s)
unfolding open_socket
open_socket-Uses s e = elim (List-cases s.connections) [
  | inl c ↦ rw (c, open_socket) tt
  | inr (refused text, more, c) ↦ rw (c, open_socket) tt
  | inr (accepted link, more, c) ↦ rw (c, e, open_socket) (omega arith)
]

ensure_open-Uses : (s : NodeClient) → Uses 0 (ensure_open s) (answer_bound s)
unfolding ensure_open
ensure_open-Uses s = elim (Option-cases s.socket) [
  | inl e ↦ rw e (open_socket-Uses (record s { socket = none }) refl)
  | inr (link, e) ↦ rw e (omega arith)
]

Uses-weaken : {A : Type 0} (k n : ℕ) (o : Outcome A × NodeClient) → Uses k o n → Uses 0 o n
Uses-weaken k n (value a, t) h = omega (arith, h)
Uses-weaken k n (fails message, t) h = tt
Uses-weaken k n (throws error, t) h = tt

initialize-Uses :
    (key : PublicKey) (s : NodeClient)
    → Uses 32 (initialize_pool_handshake_locked key s) (answer_bound s)
unfolding initialize_pool_handshake_locked
initialize-Uses key s =
    then-Uses 0 32 (write_all key.bytes s) _ _ (write_all-Uses key.bytes s)
      λ _ t. then-Uses 32 0 (read_all 32 t) _ _ (read_all-Uses 32 t) λ _ u. omega arith

handshake_unless-Uses :
    (done : Bool) (key : Option PublicKey) (s : NodeClient)
    → Uses 0 (handshake_unless done key s) (answer_bound s)
unfolding handshake_unless
handshake_unless-Uses done none s = omega arith
handshake_unless-Uses true (some key) s = omega arith
handshake_unless-Uses false (some key) s = Uses-weaken 32 _ _ (
    then-Uses 32 0 (initialize_pool_handshake_locked key s) _ _ (initialize-Uses key s)
      λ _ t. omega arith)

module _ (doubles : Doubles) where
  decode_next_message-Uses :
      (s : NodeClient) → Uses 4 (decode_next_message doubles s) (answer_bound s)
  unfolding decode_next_message
  decode_next_message-Uses s = then-Uses 4 0 (read_all 4 s) _ _ (read_all-Uses 4 s) λ len t.
      then-Uses 0 0 (read_all (read_u32_be len) t) _ _
        (Uses-weaken _ _ _ (read_all-Uses (read_u32_be len) t))
        λ bytes u. lift-Uses (parse_json doubles bytes) u

  exchange-Uses :
      (payload : Bytes) (s : NodeClient) → Uses 4 (exchange doubles payload s) (answer_bound s)
  unfolding exchange write_message
  exchange-Uses payload s =
      let header = write_u32_be (length payload % 2 ^ 32) in
      then-Uses 0 4 (write_message payload s) _ _
        (then-Uses 0 0 (write_all header s) _ _ (write_all-Uses header s)
          λ _ t. write_all-Uses payload t)
        λ _ t. decode_next_message-Uses t

  send_request-Uses :
      (request : JsonValue) (s : NodeClient)
      → Uses 4 (send_request doubles request s) (answer_bound s)
  unfolding send_request ensure_handshake
  send_request-Uses request s =
      let payload = to_json doubles false 2 request in
      then-Uses 0 4 (ensure_open s) _ _ (ensure_open-Uses s) λ _ t.
        then-Uses 0 4 (ensure_handshake t) _ _
          (handshake_unless-Uses t.pool_handshake_done t.pool_handshake_public t)
          λ _ u. closing-Uses 4 _ (exchange doubles payload u) (exchange-Uses payload u)

  ask-Uses :
      (request : JsonValue) (variant : Bytes) (s : NodeClient)
      → Uses 4 (ask doubles request variant s) (answer_bound s)
  unfolding ask
  ask-Uses request variant s =
      then-Uses 4 0 (send_request doubles request s) _ _ (send_request-Uses request s) λ response t.
        then-Uses 0 0 (lift (get_variant_payload response variant) t) _ _ (lift-Uses _ t)
          λ payload u. lift-Uses (as_object payload) u

  pub mempool_page-Uses :
      (page : ℕ) (s : NodeClient) → Uses 4 (mempool_page doubles page s) (answer_bound s)
  unfolding mempool_page
  mempool_page-Uses page s =
      then-Uses 4 0
        (ask doubles (request_of (codes "Mempool") (codes "page") (uint64 page)) (codes "Mempool")
          s)
        _ _ (ask-Uses _ _ s)
        λ payload t.
          then-Uses 0 0
            (lift
              (found_or (find_field payload (codes "mempool")) "missing response Mempool.mempool")
              t)
            _ _ (lift-Uses _ t)
            λ pool t. then-Uses 0 0 (lift (as_array pool) t) _ _ (lift-Uses _ t) λ txs t.
              then-Uses 0 0 (lift (traverse (transaction_from_json doubles) (elements txs)) t) _ _
                (lift-Uses _ t)
                λ mempool t. at_next mempool t (non_null (find_field payload (codes "next_page")))
    where
      at_next :
          (mempool : List Transaction) (t : NodeClient) (v : Option JsonValue)
          → Uses 0
              ((elim v as (λ _. NodeAction MempoolPage) [
                | none ↦ give (record { mempool = mempool; next_page = none })
                | some v ↦ lift (as_uint64 doubles v) >>= λ next.
                    give (record { mempool = mempool; next_page = some (next % 2 ^ 32) })
              ])
                t)
              (answer_bound t)
      at_next mempool t none = omega arith
      at_next mempool t (some v) =
          then-Uses 0 0 (lift (as_uint64 doubles v) t) _ _ (lift-Uses _ t) λ next u. omega arith
