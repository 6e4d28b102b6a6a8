-- ===== src/Examples/Node.antt =====
-- Tests of the node client on the bytes of a node, and its theorems on them.
use scrig.Base.{List, ℕ, false, none, some, [], ◌∷◌, ◌++◌, ◌≡◌, inl, refl, arith}
use scrig.Base.Bytes.{Bytes, be_value, bytes_eq, codes}
use scrig.Base.Action.{value}
use scrig.Json.{string, find_field, as_object, as_uint64}
use scrig.Json.Parser.{parse_json, emplace}
use scrig.Json.Printer.{to_json}
use scrig.Node.{NodeClient, lift, accepted, exchange, send_request}
use scrig.Node.Frames.{frame, linked, exchange-frame}
use scrig.Node.Requests.{height, mempool_all}
use scrig.Node.Requests.Closing.{IsClosed, send_request-IsClosed}
use scrig.Node.Requests.Paging.{Pages, mempool_all-Pages}
use scrig.Examples.{no_doubles, threes}

abbrev node : NodeClient
node = record {
  socket = none;
  connections = accepted (record { sends = []; receives = []; incoming = []; sent = [] }) ∷ [];
  subscribed = false;
  pool_handshake_done = false;
  pool_handshake_public = none;
}

abbrev height_reply : Bytes
height_reply = codes "{\"Height\":{\"height\":5}}"

height_of_pieces :
    (height no_doubles
      (linked node (3 ∷ 1 ∷ []) (2 ∷ 1 ∷ 9 ∷ []) (frame height_reply ++ 7 ∷ []) [])).0
    ≡ value 5
unfolding height to_json bytes_eq parse_json emplace find_field be_value as_object as_uint64
height_of_pieces = refl

-- The handshake is not under the catch of send_request: half a key on an open connection.
handshake_cut_off :
    let s =
      linked
        (record node { pool_handshake_public = some (record { bytes = threes }) })
        (9 ∷ 0 ∷ [])
        []
        []
        [] in
    (height no_doubles s).1.socket
    ≡ some (record {
      sends = [];
      receives = [];
      incoming = [];
      sent = 0 ∷ 7 ∷ 3 ∷ 3 ∷ 3 ∷ 3 ∷ 3 ∷ 3 ∷ 3 ∷ [];
    })
unfolding height
handshake_cut_off = refl

exchange-frame_example :
    (sends_left : List ℕ) × (receives_left : List ℕ) × (exchange no_doubles
        (codes "\"Height\"")
        (linked node (3 ∷ 1 ∷ []) (2 ∷ 1 ∷ 9 ∷ []) (frame height_reply ++ 7 ∷ []) [])
      ≡ lift
          (parse_json no_doubles height_reply)
          (linked node sends_left receives_left (7 ∷ []) (frame (codes "\"Height\""))))
exchange-frame_example =
    exchange-frame node no_doubles (3 ∷ 1 ∷ []) (2 ∷ 1 ∷ 9 ∷ []) (codes "\"Height\"") height_reply
      (7 ∷ []) [] (omega arith) (omega arith) (omega arith) (omega arith)

send_request-IsClosed_example : IsClosed (send_request no_doubles (string (codes "Height")) node)
send_request-IsClosed_example =
    send_request-IsClosed no_doubles (string (codes "Height")) node (inl refl)

-- Two pages: the first one names the second.
abbrev paged : NodeClient
paged =
    linked node [] []
      (frame (codes "{\"Mempool\":{\"mempool\":[],\"next_page\":1}}")
        ++ frame (codes "{\"Mempool\":{\"mempool\":[],\"next_page\":null}}")
        ++ 7 ∷ [])
      []

mempool_all-Pages_example : Pages no_doubles 32 0 paged (mempool_all no_doubles 32 paged)
mempool_all-Pages_example = mempool_all-Pages no_doubles 32 paged
