-- ===== src/Stratum/Submit/Fate.antt =====
-- What submit_share of src/stratum_client.cpp makes of a share, by the lines of the pool.
use scrig.Base.{
  ℕ, zero, suc, ◌+◌, ◌%◌, ◌^◌, Bool, true, false, ◌&&◌, Bool-cases, Option, none, some, List, [],
  ◌∷◌, ◌++◌, length, length-append, append_assoc, ◌≡◌, ◌⊎◌, inl, inr, refl, sym, ap, ◌∙◌, arith,
}
use scrig.Base.Bytes.{Bytes, codes}
use scrig.Base.Fault.{ok}
use scrig.Base.Action.{Outcome, value, fails, throws, continue_with, tried, done, failed, fail}
use scrig.Json.{Doubles, JsonValue}
use scrig.Json.Text.{decimal}
use scrig.Json.Parser.{parse_json}
use scrig.Stratum.Text.{json_has_error, json_error_text, is_retryable_error}
use scrig.Stratum.Client.{StratumClient, StratumAction, is_reply, request_response}
use scrig.Stratum.Client.Answers.{id_of, Gives, IsReplyTo, request_response-Gives}
use scrig.Stratum.Client.Session.{session, asked, IsIn, request_response-IsIn}
use scrig.Stratum.Client.Unread.{unread, Reads1, request_response-Reads1}
use scrig.Stratum.Submit.{
  SubmitAttempt, submit_attempts, is_login_caps, has_more, accepted, ShareResult, judged, rejected,
  share_result, submit_loop, submit_share,
}

-- The id of a request that follows `k` others.
abbrev pub id_after : (first k : ℕ) → ℕ
id_after first zero = first
id_after first (suc k) = (id_after first k + 1) % 2 ^ 64

choose :
    {A : Type 0} (P : Outcome A × StratumClient → Type 0) (test : Bool)
    (then_do else_do : StratumAction A) (t : StratumClient)
    → (test ≡ true → P (then_do t))
    → (test ≡ false → P (else_do t))
    → P ((elim test as (λ _. StratumAction A) [ true ↦ then_do | false ↦ else_do ]) t)
choose P true then_do else_do t h k = h refl
choose P false then_do else_do t h k = k refl

and-second : (x y : Bool) → (x && y) ≡ true → y ≡ true
and-second true y h = h
and-second false y h = cc h

and-first : (x y : Bool) → (x && y) ≡ true → x ≡ true
and-first true y h = refl
and-first false y h = cc h

-- The attempts of a share from the state `s0` on.
module _ (doubles : Doubles) (attempts : List SubmitAttempt) (s0 : StratumClient) where
  -- A request that ends so is followed by the next attempt.
  abbrev pub Retries : Outcome JsonValue → (later : List SubmitAttempt) → Type 0
  Retries (value reply) later =
      (json_has_error reply && has_more later && is_retryable_error (json_error_text reply)) ≡ true
  Retries (fails message) later = (is_login_caps s0.mode && has_more later) ≡ true
  Retries (throws error) later = ⊥

  -- The attempts before `rest` have been made one after the other, and each was to be followed by
  -- the next.
  pub data Made : (earlier rest : List SubmitAttempt) → StratumClient → Type 0 where
    none_yet : Made [] attempts s0
    one_more :
        {earlier later : List SubmitAttempt} {u t : StratumClient} (a : SubmitAttempt)
        (o : Outcome JsonValue)
        → Made earlier (a ∷ later) u
        → request_response doubles a.method a.params a.include_jsonrpc u ≡ (o, t)
        → Retries o later
        → Made (earlier ++ a ∷ []) later t

  -- The attempts from `rest` on are made in the state `u`, each request with the next id.
  abbrev pub IsTurn : (earlier rest : List SubmitAttempt) → (u : StratumClient) → Type 0
  IsTurn earlier rest u =
      (attempts ≡ earlier ++ rest)
      × Made earlier rest u
      × (u.next_request_id ≡ id_after s0.next_request_id (length earlier))
      × (u.mode ≡ s0.mode)
      × (skipped : List Bytes) × (unread s0 ≡ skipped ++ unread u)

  -- The last attempt that is made, with what its request ends with.
  abbrev pub IsLast :
      Outcome JsonValue
      → ((k : ℕ) → (later : List SubmitAttempt) → Type 0)
      → (t : StratumClient) → Type 0
  IsLast outcome says t =
      (earlier : List SubmitAttempt) × (a : SubmitAttempt) × (later : List SubmitAttempt)
      × (u : StratumClient) × IsTurn earlier (a ∷ later) u
      × (request_response doubles a.method a.params a.include_jsonrpc u ≡ (outcome, t))
      × says (length earlier) later

  -- The last line that was read is this reply, with the id of the request behind `k` others.
  abbrev pub IsAnswer : (k : ℕ) → (reply : JsonValue) → (t : StratumClient) → Type 0
  IsAnswer k reply t =
      (t.next_request_id ≡ id_after s0.next_request_id (suc k))
      × (is_reply (id_of reply) (decimal (id_after s0.next_request_id k)) ≡ true)
      × (skipped : List Bytes) × (text : Bytes) × (unread s0 ≡ skipped ++ text ∷ unread t)
      × (parse_json doubles text ≡ ok reply)

  -- What is said of a share goes back to the request of the last attempt that was made.
  abbrev pub IsFate : Outcome ShareResult × StratumClient → Type 0
  IsFate (value (judged says), t) =
      (reply : JsonValue) × IsLast (value reply)
        (λ k later. IsAnswer k reply t × (json_has_error reply ≡ false) × (accepted reply ≡ says)) t
  IsFate (value (rejected message), t) =
      (reply : JsonValue) × IsLast (value reply)
        (λ k later.
          IsAnswer k reply t
          × (json_has_error reply ≡ true)
          × ((has_more later && is_retryable_error (json_error_text reply)) ≡ false)
          × (message ≡ codes "share rejected: " ++ json_error_text reply))
        t
  IsFate (fails message, t) =
      ((attempts ≡ []) × (message ≡ codes "pool protocol mode not initialized"))
      ⊎ IsLast (fails message) (λ k later. (is_login_caps s0.mode && has_more later) ≡ false) t
  IsFate (throws error, t) = IsLast (throws error) (λ k later. Unit) t

  share_result-IsFate :
      (earlier : List SubmitAttempt) (a : SubmitAttempt) (later : List SubmitAttempt)
      (u : StratumClient) (reply : JsonValue) (err : Bytes) (t : StratumClient)
      → IsTurn earlier (a ∷ later) u
      → request_response doubles a.method a.params a.include_jsonrpc u ≡ (value reply, t)
      → IsAnswer (length earlier) reply t
      → (json_has_error reply && has_more later && is_retryable_error (json_error_text reply))
        ≡ false
      → IsFate (share_result (some reply) err t)
  unfolding share_result
  share_result-IsFate earlier a later u reply err t turn e answer final =
      elim (Bool-cases (json_has_error reply)) [
        | inl h ↦
            let over : (has_more later && is_retryable_error (json_error_text reply)) ≡ false =
              ap (λ b. b && has_more later && is_retryable_error (json_error_text reply)) (sym h)
              ∙ final in
            rw h (reply, (earlier, a, later, u, turn, e, (answer, h, over, refl)))
        | inr h ↦ rw h (reply, (earlier, a, later, u, turn, e, (answer, h, refl)))
      ]

  next-IsTurn :
      (earlier : List SubmitAttempt) (a : SubmitAttempt) (later : List SubmitAttempt)
      (u t : StratumClient) (o : Outcome JsonValue)
      → IsTurn earlier (a ∷ later) u
      → request_response doubles a.method a.params a.include_jsonrpc u ≡ (o, t)
      → Retries o later
      → session t ≡ session (asked u)
      → (read : List Bytes) × (unread u ≡ read ++ unread t)
      → IsTurn (earlier ++ a ∷ []) later t
  next-IsTurn earlier a later u t o (split, made, id, same, skipped, e) ended retries k (read, f) =
      let longer : length (earlier ++ a ∷ []) ≡ suc (length earlier) =
        omega (arith, length-append earlier (a ∷ [])) in
      (
        split ∙ sym (append_assoc earlier (a ∷ []) later),
        one_more a o made ended retries,
        ap (λ x. x.0) k
            ∙ ap (λ i. (i + 1) % 2 ^ 64) id
            ∙ ap (id_after s0.next_request_id) (sym longer),
        ap (λ x. x.1) k ∙ same,
        skipped ++ read,
        e ∙ ap (λ l. skipped ++ l) f ∙ sym (append_assoc skipped read (unread t)),
      )

  submit_loop-IsFate :
      (rest : List SubmitAttempt) (resp : Option JsonValue) (err : Bytes)
      (earlier : List SubmitAttempt) (s : StratumClient)
      → IsTurn earlier rest s
      → has_more rest ≡ true
      → IsFate (submit_loop doubles rest resp err s)
  unfolding submit_loop
  submit_loop-IsFate [] resp err earlier s turn more = cc more
  submit_loop-IsFate (a ∷ later) resp err earlier s turn more =
      at_reply (request_response doubles a.method a.params a.include_jsonrpc s) refl
        (request_response-Gives doubles a.method a.params a.include_jsonrpc s).0
        (request_response-IsIn doubles a.method a.params a.include_jsonrpc s)
        (request_response-Reads1 doubles a.method a.params a.include_jsonrpc s)
        (submit_loop doubles later)
        λ resp err t. submit_loop-IsFate later resp err (earlier ++ a ∷ []) t
    where
      at_reply :
          (o : Outcome JsonValue × StratumClient)
          → request_response doubles a.method a.params a.include_jsonrpc s ≡ o
          → Gives (IsReplyTo (decimal s.next_request_id)) s.queued_jobs o
          → IsIn (session (asked s)) o
          → Reads1 (λ text reply. parse_json doubles text ≡ ok reply) (unread s) o
          → (next : Option JsonValue → Bytes → StratumAction ShareResult)
          → ((resp : Option JsonValue) (err : Bytes) (t : StratumClient)
              → IsTurn (earlier ++ a ∷ []) later t
              → has_more later ≡ true
              → IsFate (next resp err t))
          → IsFate (
              continue_with (tried o) λ r. elim r [
                | failed message ↦ elim (is_login_caps s.mode && has_more later) [
                  | true ↦ next resp message
                  | false ↦ fail message
                ]
                | done reply ↦
                    let err = json_error_text reply in
                    elim (json_has_error reply && has_more later && is_retryable_error err) [
                      | true ↦ next (some reply) err
                      | false ↦ share_result (some reply) err
                    ]
              ])
      at_reply (value reply, t) e (replied, _) k (read, text, f, parsed) next ih =
          let (split, made, id, same, skipped, g) = turn in
          let err = json_error_text reply in
          let answer : IsAnswer (length earlier) reply t = (
            ap (λ x. x.0) k ∙ ap (λ i. (i + 1) % 2 ^ 64) id,
            ap (λ i. is_reply (id_of reply) (decimal i)) (sym id) ∙ replied,
            skipped ++ read,
            text,
            g ∙ ap (λ l. skipped ++ l) f ∙ sym (append_assoc skipped read (text ∷ unread t)),
            parsed,
          ) in
          choose IsFate (json_has_error reply && has_more later && is_retryable_error err)
            (next (some reply) err) (share_result (some reply) err) t
            (λ b.
              ih (some reply) err t
                (next-IsTurn earlier a later s t (value reply) turn e b k
                  (read ++ text ∷ [], f ∙ sym (append_assoc read (text ∷ []) (unread t))))
                (and-second _ _ (and-first _ _ b)))
            λ b. share_result-IsFate earlier a later s reply err t turn e answer b
      at_reply (fails message, t) e g k read next ih =
          let (split, made, id, same, skipped, f) = turn in
          let caps : (is_login_caps s0.mode && has_more later)
              ≡ (is_login_caps s.mode && has_more later) =
            ap (λ m. is_login_caps m && has_more later) (sym same) in
          choose IsFate (is_login_caps s.mode && has_more later) (next resp message) (fail message)
            t
            (λ b.
              ih resp message t
                (next-IsTurn earlier a later s t (fails message) turn e (caps ∙ b) k read)
                (and-second _ _ b))
            λ b. inr (earlier, a, later, s, turn, e, caps ∙ b)
      at_reply (throws error, t) e g k read next ih = (earlier, a, later, s, turn, e, tt)

-- Whatever the pool sends, the result of submit_share goes back to the last of the mode's attempts
-- that it made. The attempts before it were made one after the other, a request for each, and each of
-- them ended with a retryable error in its reply or, in the mode login_caps_submit, with a failure.
-- A share is judged or rejected by the last line that was read of those to come, a message with the id
-- of the last request: judged as `accepted` reads it, if it has no error, and rejected with its error
-- otherwise, if the error is not retryable or no attempt is left. submit_share fails in a mode that
-- has no attempts, or with the failure of the last request, if the mode is not login_caps_submit or
-- no attempt is left; and it throws what the last request throws.
pub submit_share-IsFate :
    (doubles : Doubles) (user job_id nonce_hex result_hex : Bytes) (s : StratumClient)
    → IsFate doubles
        (submit_attempts user job_id nonce_hex result_hex s.mode
          (elim s.session_id [ some id ↦ id | none ↦ user ]))
        s
        (submit_share doubles user job_id nonce_hex result_hex s)
unfolding submit_share
submit_share-IsFate doubles user job_id nonce_hex result_hex s = at_attempts (
    submit_attempts user job_id nonce_hex result_hex s.mode
      (elim s.session_id [ some id ↦ id | none ↦ user ]))
  where
    at_attempts :
        (attempts : List SubmitAttempt)
        → IsFate doubles attempts s (
            (elim attempts as (λ _. StratumAction ShareResult) [
              | [] ↦ fail (codes "pool protocol mode not initialized")
              | a ∷ rest ↦ submit_loop doubles (a ∷ rest) none []
            ])
              s)
    at_attempts [] = inl (refl, refl)
    at_attempts (a ∷ rest) =
        submit_loop-IsFate doubles (a ∷ rest) s (a ∷ rest) none [] [] s
          (refl, none_yet, refl, refl, [], refl) refl
