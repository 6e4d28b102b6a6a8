-- ===== src/Node/Frames.antt =====
-- Messages of src/node_client.cpp on a connection that cuts them into pieces.
use scrig.Base.{
  ℕ, zero, suc, ◌-◌, ◌%◌, ◌^◌, ◌<◌, ◌≤◌, true, Option, none, some, List, [], ◌∷◌, ◌++◌, length,
  take, drop, All, leb, le→leb, length-append, length-drop, append_assoc, append-nil,
  take-append-drop, ◌≡◌, refl, sym, ap, ◌∙◌, arith,
}
use scrig.Base.Bytes.{Bytes, be_value}
use scrig.Base.Action.{value, continue_with}
use scrig.Json.{Doubles, JsonValue}
use scrig.Json.Parser.{parse_json}
use scrig.Node.{
  NodeClient, NodeAction, lift, write_loop, write_all, received, received-le, read_loop, read_all,
  read_u32_be, write_u32_be, write_message, decode_next_message, exchange,
}

-- The bytes of a message on the wire.
abbrev pub frame : (text : Bytes) → Bytes
frame text = write_u32_be (length text) ++ text

-- Every call transfers a byte at least.
abbrev pub Flows : List ℕ → Type 0
Flows calls = All (λ n. 0 < n) calls

read_u32_be-write_u32_be : (n : ℕ) → n < 2 ^ 32 → read_u32_be (write_u32_be n) ≡ n
unfolding read_u32_be write_u32_be be_value
read_u32_be-write_u32_be n h = omega arith

module _ {A : Type 0} where
  take-append : (n : ℕ) (xs ys : List A) → n ≤ length xs → take n (xs ++ ys) ≡ take n xs
  take-append zero xs ys h = refl
  take-append (suc n) [] ys h = absurd (omega arith)
  take-append (suc n) (x ∷ xs) ys h = ap (λ l. x ∷ l) (take-append n xs ys (omega arith))

  drop-append : (n : ℕ) (xs ys : List A) → n ≤ length xs → drop n (xs ++ ys) ≡ drop n xs ++ ys
  drop-append zero xs ys h = refl
  drop-append (suc n) [] ys h = absurd (omega arith)
  drop-append (suc n) (x ∷ xs) ys h = drop-append n xs ys (omega arith)

  take-length : (xs : List A) → take (length xs) xs ≡ xs
  take-length [] = refl
  take-length (x ∷ xs) = ap (λ l. x ∷ l) (take-length xs)

  drop-length : (xs : List A) → drop (length xs) xs ≡ []
  drop-length [] = refl
  drop-length (x ∷ xs) = drop-length xs

write_loop_lem :
    (sends : List ℕ) (bytes sent : Bytes)
    → Flows sends
    → (left : List ℕ) × Flows left × (write_loop sends bytes sent ≡ (true, left, sent ++ bytes))
unfolding write_loop
write_loop_lem [] [] sent h = ([], tt, rw (append-nil sent) refl)
write_loop_lem (n ∷ sends) [] sent h = (n ∷ sends, h, rw (append-nil sent) refl)
write_loop_lem [] (b ∷ bytes) sent h = ([], tt, refl)
write_loop_lem (zero ∷ sends) (b ∷ bytes) sent h = absurd (omega arith)
write_loop_lem (suc n ∷ sends) (b ∷ bytes) sent (_, h) =
    let (left, flows, e) = write_loop_lem sends (drop n bytes) (sent ++ b ∷ take n bytes) h in
    let joined : (sent ++ b ∷ take n bytes) ++ drop n bytes ≡ sent ++ b ∷ bytes =
      append_assoc sent (b ∷ take n bytes) (drop n bytes)
      ∙ ap (λ t. sent ++ b ∷ t) (take-append-drop n bytes) in
    (left, flows, e ∙ ap (λ t. (true, left, t)) joined)

-- One call of recv brings `count` more bytes behind the first, and the rest of the loop the others.
abbrev assembled :
    (b count : ℕ) (incoming : Bytes) → Option Bytes × List ℕ × Bytes → Option Bytes × List ℕ × Bytes
assembled b count incoming (more, left, rest) =
    (elim more [ some bytes ↦ some (b ∷ (take count incoming ++ bytes)) | none ↦ none ], left, rest)

read_loop_lem :
    (receives : List ℕ) (bytes rest : Bytes)
    → Flows receives
    → (left : List ℕ) × Flows left
      × (read_loop receives (bytes ++ rest) (length bytes) ≡ (some bytes, left, rest))
unfolding read_loop
read_loop_lem receives [] rest h = (receives, h, refl)
read_loop_lem [] (b ∷ bytes) rest h =
    let le : leb (length bytes) (length (bytes ++ rest)) ≡ true =
      le→leb _ _ (omega (arith, length-append bytes rest)) in
    let t : take (length bytes) (bytes ++ rest) ≡ bytes =
      take-append (length bytes) bytes rest (omega arith) ∙ take-length bytes in
    let d : drop (length bytes) (bytes ++ rest) ≡ rest =
      drop-append (length bytes) bytes rest (omega arith)
      ∙ ap (λ l. l ++ rest) (drop-length bytes) in
    ([], tt, rw (le, t, d) refl)
read_loop_lem (zero ∷ receives) (b ∷ bytes) rest h = absurd (omega arith)
read_loop_lem (suc n ∷ receives) (b ∷ bytes) rest (_, h) =
    let count = received n (length bytes) (length (bytes ++ rest)) in
    let (le, _) = received-le n (length bytes) (length (bytes ++ rest)) in
    let (left, flows, e) = read_loop_lem receives (drop count bytes) rest h in
    let incoming = drop-append count bytes rest le in
    let t : take count (bytes ++ rest) ++ drop count bytes ≡ bytes =
      ap (λ l. l ++ drop count bytes) (take-append count bytes rest le)
      ∙ take-append-drop count bytes in
    (
      left,
      flows,
      ap (λ i. assembled b count (bytes ++ rest) (read_loop receives i (length bytes - count)))
            incoming
          ∙ ap
              (λ k.
                assembled b count (bytes ++ rest) (read_loop receives (drop count bytes ++ rest) k))
              (sym (length-drop count bytes))
          ∙ ap (assembled b count (bytes ++ rest)) e
          ∙ ap (λ l. (some (b ∷ l), left, rest)) t,
    )

-- A client whose connection is as the arguments say.
abbrev pub linked : NodeClient → (sends receives : List ℕ) → (incoming sent : Bytes) → NodeClient
linked s sends receives incoming sent = record s {
  socket = some (record { sends = sends; receives = receives; incoming = incoming; sent = sent });
}

module _ (s : NodeClient) where
  write_all_lem :
      (sends receives : List ℕ) (incoming sent bytes : Bytes)
      → Flows sends
      → (left : List ℕ) × Flows left
        × (write_all bytes (linked s sends receives incoming sent)
            ≡ (value tt, linked s left receives incoming (sent ++ bytes)))
  unfolding write_all
  write_all_lem sends receives incoming sent bytes h =
      let (left, flows, e) = write_loop_lem sends bytes sent h in (left, flows, rw e refl)

  read_all_lem :
      (sends receives : List ℕ) (bytes rest sent : Bytes)
      → Flows receives
      → (left : List ℕ) × Flows left
        × (read_all (length bytes) (linked s sends receives (bytes ++ rest) sent)
            ≡ (value bytes, linked s sends left rest sent))
  unfolding read_all
  read_all_lem sends receives bytes rest sent h =
      let (left, flows, e) = read_loop_lem receives bytes rest h in (left, flows, rw e refl)

  write_message_lem :
      (sends receives : List ℕ) (incoming sent payload : Bytes)
      → Flows sends
      → length payload < 2 ^ 32
      → (left : List ℕ) × Flows left
        × (write_message payload (linked s sends receives incoming sent)
            ≡ (value tt, linked s left receives incoming (sent ++ frame payload)))
  unfolding write_message
  write_message_lem sends receives incoming sent payload h small =
      let header = write_u32_be (length payload) in
      let (mid, flows, e) = write_all_lem sends receives incoming sent header h in
      let (left, flows', d) = write_all_lem mid receives incoming (sent ++ header) payload flows in
      let whole : length payload % 2 ^ 32 ≡ length payload = omega arith in
      (
        left,
        flows',
        ap
              (λ n.
                continue_with (write_all (write_u32_be n) (linked s sends receives incoming sent))
                  (λ _. write_all payload))
              whole
            ∙ ap (λ o. continue_with o (λ _. write_all payload)) e
            ∙ d
            ∙ ap (λ t. (value tt, linked s left receives incoming t))
                (append_assoc sent header payload),
      )

  module _ (doubles : Doubles) where
    decode_next_message_lem :
        (sends receives : List ℕ) (text rest sent : Bytes)
        → Flows receives
        → length text < 2 ^ 32
        → (left : List ℕ) × Flows left
          × (decode_next_message doubles (linked s sends receives (frame text ++ rest) sent)
              ≡ lift (parse_json doubles text) (linked s sends left rest sent))
    unfolding decode_next_message write_u32_be
    decode_next_message_lem sends receives text rest sent h small =
        let header = write_u32_be (length text) in
        let (mid, flows, e) = read_all_lem sends receives header (text ++ rest) sent h in
        let (left, flows', d) = read_all_lem sends mid text rest sent flows in
        let body : Bytes → NodeAction JsonValue = λ bytes. lift (parse_json doubles bytes) in
        (
          left,
          flows',
          ap (λ o. continue_with o (λ len t. continue_with (read_all (read_u32_be len) t) body)) e
              ∙ ap (λ n. continue_with (read_all n (linked s sends mid (text ++ rest) sent)) body)
                  (read_u32_be-write_u32_be (length text) small)
              ∙ ap (λ o. continue_with o body) d,
        )

    -- On a connection on which every call transfers a byte at least, however it cuts the bytes: where
    -- the next bytes that the node sends are a message, an exchange gives the node its own message
    -- whole, takes the node's message and no byte behind it, and ends as parse_json does on its text,
    -- if both messages have less than 2^32 bytes.
    pub exchange-frame :
        (sends receives : List ℕ) (payload text rest sent : Bytes)
        → Flows sends
        → Flows receives
        → length payload < 2 ^ 32
        → length text < 2 ^ 32
        → (sends_left : List ℕ) × (receives_left : List ℕ) × (exchange doubles payload
              (linked s sends receives (frame text ++ rest) sent)
            ≡ lift
                (parse_json doubles text)
                (linked s sends_left receives_left rest (sent ++ frame payload)))
    unfolding exchange write_u32_be
    exchange-frame sends receives payload text rest sent hs hr hp ht =
        let (sends_left, _, e) =
          write_message_lem sends receives (frame text ++ rest) sent payload hs hp in
        let (receives_left, _, d) =
          decode_next_message_lem sends_left receives text rest (sent ++ frame payload) hr ht in
        (
          sends_left,
          receives_left,
          ap (λ o. continue_with o (λ _. decode_next_message doubles)) e ∙ d,
        )
