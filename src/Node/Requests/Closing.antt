-- ===== src/Node/Requests/Closing.antt =====
-- The connection of src/node_client.cpp after an exception.
use scrig.Base.{
  arith, Bool, true, false, Option, none, some, Option-cases, List-cases, ◌≡◌, ◌⊎◌, inl, inr, refl,
  subst, sym,
}
use scrig.Base.Action.{Outcome, value, fails, throws, continue_with}
use scrig.Types.{PublicKey}
use scrig.Json.{Doubles, JsonValue}
use scrig.Json.Printer.{to_json}
use scrig.Node.{
  refused, accepted, NodeClient, open_socket, ensure_open, ensure_handshake, handshake_unless,
  closing, exchange, send_request,
}

-- An exception leaves no connection open.
abbrev pub IsClosed : {A : Type 0} → Outcome A × NodeClient → Type 0
IsClosed (throws error, t) = t.socket ≡ none
IsClosed _ = Unit

-- A client that does not have to repeat a handshake.
abbrev pub IsSettled : NodeClient → Type 0
IsSettled s = (s.pool_handshake_public ≡ none) ⊎ (s.pool_handshake_done ≡ true)

closing-IsClosed : {A : Type 0} (o : Outcome A × NodeClient) → IsClosed (closing o)
closing-IsClosed (value a, t) = tt
closing-IsClosed (fails message, t) = tt
closing-IsClosed (throws error, t) = refl

abbrev Opened : Outcome (Unit {0}) × NodeClient → Type 0
Opened (value a, t) = IsSettled t
Opened (fails message, t) = Unit
Opened (throws error, t) = t.socket ≡ none

open_socket-Opened : (s : NodeClient) → s.socket ≡ none → IsSettled s → Opened (open_socket s)
unfolding open_socket
open_socket-Opened s e h = elim (List-cases s.connections) [
  | inl c ↦ rw (c, open_socket) e
  | inr (refused text, more, c) ↦ rw (c, open_socket) e
  | inr (accepted link, more, c) ↦ rw (c, open_socket) h
]

ensure_open-Opened : (s : NodeClient) → IsSettled s → Opened (ensure_open s)
unfolding ensure_open
ensure_open-Opened s h = elim (Option-cases s.socket) [
  | inl e ↦ rw e (open_socket-Opened (record s { socket = none }) refl h)
  | inr (link, e) ↦ rw e h
]

ensure_handshake-IsSettled : (s : NodeClient) → IsSettled s → ensure_handshake s ≡ (value tt, s)
unfolding ensure_handshake
ensure_handshake-IsSettled s h = settled s.pool_handshake_done s.pool_handshake_public h
  where
    settled :
        (done : Bool) (key : Option PublicKey)
        → (key ≡ none) ⊎ (done ≡ true)
        → handshake_unless done key s ≡ (value tt, s)
    settled done none h = unfold handshake_unless in refl
    settled true (some key) h = unfold handshake_unless in refl
    settled false (some key) h = absurd (ground (arith, h))

-- Where no handshake is to be repeated, a request that throws leaves no connection open, whichever
-- of its steps threw: a message that was cut off is never followed by another on its connection.
pub send_request-IsClosed :
    (doubles : Doubles) (request : JsonValue) (s : NodeClient)
    → IsSettled s
    → IsClosed (send_request doubles request s)
unfolding send_request
send_request-IsClosed doubles request s h = after (ensure_open s) (ensure_open-Opened s h)
  where
    after :
        (o : Outcome (Unit {0}) × NodeClient)
        → Opened o
        → IsClosed (
            continue_with o λ _ t.
              continue_with
                (ensure_handshake t)
                λ _ u. closing (exchange doubles (to_json doubles false 2 request) u))
    after (value a, t) k =
        subst
          (λ (o : Outcome (Unit {0}) × NodeClient).
            IsClosed (
              continue_with o
                λ _ u. closing (exchange doubles (to_json doubles false 2 request) u)))
          (sym (ensure_handshake-IsSettled t k))
          (closing-IsClosed (exchange doubles (to_json doubles false 2 request) t))
    after (fails message, t) k = tt
    after (throws error, t) k = k
