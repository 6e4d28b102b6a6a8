-- ===== src/Miner/Worker/Batch.antt =====
-- The batches of mining_worker_loop in src/miner.cpp.
use scrig.Base.{
  ℕ, suc, ◌+◌, ◌≤◌, Bool, true, false, Bool-cases, Option, none, some, List, [], ◌∷◌, ◌++◌, length,
  take, drop, if◌then◌else◌, length-take, ◌≡◌, inl, inr, refl, subst, sym, ap, ◌∙◌, arith,
}
use scrig.Base.Bytes.{Bytes}
use scrig.Base.Fault.{Result, ok, throw}
use scrig.Types.{Hash, DifficultyTarget}
use scrig.Difficulty.{hash_meets_target}
use scrig.Miner.Nonce.{le_bytes, write_nonce_le}
use scrig.Miner.Worker.{
  hash_data_pipeline_begin, batch_loop, pipeline_round, patched_round, patched_rounds,
}

module _ {A : Type 0} where
  take-length_append : (xs ys : List A) → take (length xs) (xs ++ ys) ≡ xs
  take-length_append [] ys = refl
  take-length_append (x ∷ xs) ys = ap (λ l. x ∷ l) (take-length_append xs ys)

  drop-length_append : (n : ℕ) (xs ys : List A) → drop (length xs + n) (xs ++ ys) ≡ drop n ys
  drop-length_append n [] ys = ap (λ k. drop k ys) {x = 0 + n} {y = n} (omega arith)
  drop-length_append n (x ∷ xs) ys =
      ap (λ k. drop k (x ∷ (xs ++ ys))) {x = suc (length xs) + n} {y = suc (length xs + n)}
        (omega arith)
      ∙ drop-length_append n xs ys

-- A nonce is written over the one before.
write_nonce_le-again :
    (buffer : Bytes) (dest m n : ℕ)
    → dest ≤ length buffer
    → write_nonce_le (write_nonce_le buffer dest m) dest n ≡ write_nonce_le buffer dest n
unfolding write_nonce_le le_bytes
write_nonce_le-again buffer dest m n h =
    let size : length (take dest buffer) ≡ dest = length-take dest buffer h in
    let tail : Bytes = le_bytes m ++ drop (dest + 8) buffer in
    let front : take dest (take dest buffer ++ tail) ≡ take dest buffer =
      ap (λ k. take k (take dest buffer ++ tail)) (sym size)
      ∙ take-length_append (take dest buffer) tail in
    let back : drop (dest + 8) (take dest buffer ++ tail) ≡ drop (dest + 8) buffer =
      ap (λ k. drop (k + 8) (take dest buffer ++ tail)) (sym size)
      ∙ drop-length_append 8 (take dest buffer) tail in
    rw (front, back) refl

module _ (hash_data : Bytes → Hash) (target : DifficultyTarget) (dest : ℕ) (template : Bytes) where
  -- The first nonce of a list, with its hash, whose hash in the template meets the target.
  unfoldable pub first_hit : List ℕ → Option (ℕ × Hash)
  first_hit [] = none
  first_hit (nonce ∷ nonces) =
      let hash = hash_data (write_nonce_le template dest nonce) in
      elim (hash_meets_target hash target) [ true ↦ some (nonce, hash) | false ↦ first_hit nonces ]

  -- A buffer that is the template but for its nonce.
  abbrev IsCopy : Bytes → Type 0
  IsCopy buffer = (n : ℕ) → write_nonce_le buffer dest n ≡ write_nonce_le template dest n

  -- The first hit, the buffers as copies of the template, and a hash for each nonce at most and one
  -- for the input that was still pending.
  abbrev pub IsSearch :
      (nonces : List ℕ) (extra : ℕ) → Result (Option (ℕ × Hash) × Bytes × Bytes × ℕ) → Type 0
  IsSearch nonces extra (ok (found, local_buffer, pipeline_buffer, hashes)) =
      (found ≡ first_hit nonces)
      × ((n : ℕ) → write_nonce_le local_buffer dest n ≡ write_nonce_le template dest n)
      × ((n : ℕ) → write_nonce_le pipeline_buffer dest n ≡ write_nonce_le template dest n)
      × (hashes ≤ extra + length nonces)
  IsSearch nonces extra (throw error) = ⊥

  same_hit :
      (test : Bool) (hit : ℕ × Hash)
      → (if test then some hit else none)
        ≡ (elim test as (λ _. Option (ℕ × Hash)) [ true ↦ some hit | false ↦ none ])
  same_hit true hit = refl
  same_hit false hit = refl

  later-IsSearch :
      (previous : ℕ) (nonces : List ℕ) (extra : ℕ)
      (r : Result (Option (ℕ × Hash) × Bytes × Bytes × ℕ))
      → hash_meets_target (hash_data (write_nonce_le template dest previous)) target ≡ false
      → IsSearch nonces (suc extra) r
      → IsSearch (previous ∷ nonces) extra r
  unfolding first_hit
  later-IsSearch previous nonces extra (ok (found, local_buffer, pipeline_buffer, hashes)) e
        (h, cl, cp, le) =
      (rw (e, first_hit) h, cl, cp, omega arith)
  later-IsSearch previous nonces extra (throw error) e h = h

  choose :
      (nonces : List ℕ) (extra : ℕ) (test : Bool) (stop : Option (ℕ × Hash) × Bytes × Bytes × ℕ)
      (go : Result (Option (ℕ × Hash) × Bytes × Bytes × ℕ))
      → (test ≡ true → IsSearch nonces extra (ok stop))
      → (test ≡ false → IsSearch nonces extra go)
      → IsSearch nonces extra (elim test as (λ _. Result (Option (ℕ × Hash) × Bytes × Bytes × ℕ)) [
        | true ↦ ok stop
        | false ↦ go
      ])
  choose nonces extra true stop go h k = h refl
  choose nonces extra false stop go h k = k refl

  module _ (inside : dest ≤ length template) where
    written-IsCopy :
        (buffer : Bytes) (n : ℕ) → IsCopy buffer → IsCopy (write_nonce_le buffer dest n)
    written-IsCopy buffer n copy m =
        ap (λ b. write_nonce_le b dest m) (copy n) ∙ write_nonce_le-again template dest n m inside

    batch_loop-IsSearch :
        (nonces : List ℕ) (previous : ℕ) (is_even : Bool) (local_buffer pipeline_buffer : Bytes)
        (hashes extra : ℕ)
        → IsCopy local_buffer
        → IsCopy pipeline_buffer
        → hashes ≤ extra
        → IsSearch (previous ∷ nonces) extra (
            batch_loop hash_data target dest nonces previous is_even local_buffer pipeline_buffer
              (some (hash_data (write_nonce_le template dest previous)))
              hashes)
    unfolding batch_loop first_hit
    batch_loop-IsSearch [] previous is_even local_buffer pipeline_buffer hashes extra cl cp le = (
      same_hit (hash_meets_target (hash_data (write_nonce_le template dest previous)) target) _,
      cl,
      cp,
      omega arith,
    )
    batch_loop-IsSearch (nonce ∷ nonces) previous true local_buffer pipeline_buffer hashes extra cl
          cp le =
        let next = write_nonce_le local_buffer dest nonce in
        let copy = written-IsCopy local_buffer nonce cl in
        let rest =
          subst
            (λ b. IsSearch (nonce ∷ nonces) (suc extra) (
              batch_loop hash_data target dest nonces nonce false next pipeline_buffer
                (some (hash_data b)) (hashes + 1)))
            (sym (cl nonce))
            (batch_loop-IsSearch nonces nonce false next pipeline_buffer (hashes + 1) (suc extra)
              copy cp (omega arith)) in
        choose (previous ∷ nonce ∷ nonces) extra _
          (
            some (previous, hash_data (write_nonce_le template dest previous)),
            next,
            pipeline_buffer,
            hashes + 2,
          )
          _ (λ e. (rw (e, first_hit) refl, copy, cp, omega arith))
          (λ e. later-IsSearch previous (nonce ∷ nonces) extra _ e rest)
    batch_loop-IsSearch (nonce ∷ nonces) previous false local_buffer pipeline_buffer hashes extra cl
          cp le =
        let next = write_nonce_le pipeline_buffer dest nonce in
        let copy = written-IsCopy pipeline_buffer nonce cp in
        let rest =
          subst
            (λ b. IsSearch (nonce ∷ nonces) (suc extra) (
              batch_loop hash_data target dest nonces nonce true local_buffer next
                (some (hash_data b)) (hashes + 1)))
            (sym (cp nonce))
            (batch_loop-IsSearch nonces nonce true local_buffer next (hashes + 1) (suc extra) cl
              copy (omega arith)) in
        choose (previous ∷ nonce ∷ nonces) extra _
          (
            some (previous, hash_data (write_nonce_le template dest previous)),
            local_buffer,
            next,
            hashes + 2,
          )
          _ (λ e. (rw (e, first_hit) refl, cl, copy, omega arith))
          (λ e. later-IsSearch previous (nonce ∷ nonces) extra _ e rest)

    pipelined-IsSearch :
        (nonces : List ℕ) (local_buffer pipeline_buffer : Bytes)
        → IsCopy local_buffer
        → IsCopy pipeline_buffer
        → IsSearch nonces 1
            (pipeline_round hash_data target dest nonces local_buffer pipeline_buffer)
    unfolding pipeline_round first_hit hash_data_pipeline_begin
    pipelined-IsSearch [] local_buffer pipeline_buffer cl cp = (refl, cl, cp, omega arith)
    pipelined-IsSearch (nonce ∷ nonces) local_buffer pipeline_buffer cl cp =
        let first = write_nonce_le local_buffer dest nonce in
        subst
          (λ b. IsSearch (nonce ∷ nonces) 1 (
            batch_loop hash_data target dest nonces nonce false first pipeline_buffer
              (some (hash_data b)) 0))
          (sym (cl nonce))
          (batch_loop-IsSearch nonces nonce false first pipeline_buffer 0 1
            (written-IsCopy local_buffer nonce cl) cp (omega arith))

    patched_rounds-first_hit :
        (nonces : List ℕ) (local_buffer : Bytes)
        → IsCopy local_buffer
        → (patched_rounds hash_data target dest nonces local_buffer).0 ≡ first_hit nonces
    unfolding patched_rounds patched_round first_hit
    patched_rounds-first_hit [] local_buffer cl = refl
    patched_rounds-first_hit (nonce ∷ nonces) local_buffer cl =
        let buffer = write_nonce_le local_buffer dest nonce in
        let rest = patched_rounds-first_hit nonces buffer (written-IsCopy local_buffer nonce cl) in
        elim (Bool-cases
          (hash_meets_target (hash_data (write_nonce_le template dest nonce)) target)) [
            | inl e ↦ rw (cl nonce, e, patched_rounds, patched_round, first_hit) refl
            | inr e ↦ rw (cl nonce, e, patched_rounds, patched_round, first_hit) rest
          ]

    -- Buffers that are copies of a template but for their nonces: a batch of the pipeline, which
    -- hashes one buffer while it writes the other, returns the first of its nonces whose hash in
    -- the template meets the target, with that hash, and so do the rounds without the pipeline; the
    -- buffers are still such copies, and there is at most one hash more than there are nonces.
    pub pipeline_round-IsSearch :
        (nonces : List ℕ) (local_buffer pipeline_buffer : Bytes)
        → IsCopy local_buffer
        → IsCopy pipeline_buffer
        → IsSearch nonces 1
            (pipeline_round hash_data target dest nonces local_buffer pipeline_buffer)
          × ((patched_rounds hash_data target dest nonces local_buffer).0 ≡ first_hit nonces)
    pipeline_round-IsSearch nonces local_buffer pipeline_buffer cl cp = (
      pipelined-IsSearch nonces local_buffer pipeline_buffer cl cp,
      patched_rounds-first_hit nonces local_buffer cl,
    )
