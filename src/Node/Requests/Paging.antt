-- ===== src/Node/Requests/Paging.antt =====
-- mempool_all of src/node_client.cpp on every node: the pages that it walks.
use scrig.Base.{
  ℕ, zero, suc, ◌+◌, ◌<◌, ◌≤◌, Bool, true, false, none, some, List, [], ◌++◌, leb, Option-cases,
  ◌≡◌, ◌⊎◌, inl, inr, refl, sym, ap, ◌∙◌, subst, append_assoc, arith,
}
use scrig.Base.Bytes.{Bytes}
use scrig.Base.Fault.{Error}
use scrig.Base.Action.{Outcome, value, fails, throws, continue_with, give}
use scrig.Types.{Transaction}
use scrig.Json.{Doubles}
use scrig.Node.{NodeClient, NodeAction}
use scrig.Node.Requests.{MempoolPage, answer_bound, mempool_page, mempool_loop, mempool_all}
use scrig.Node.Requests.Uses.{Uses, le_of_leb, mempool_page-Uses}

lt_of_leb : (a b : ℕ) → leb a b ≡ false → b < a
lt_of_leb a b h = ground arith

-- What is collected of the pages from a page on, behind the transactions of one before it.
abbrev prepend :
    List Transaction
    → Outcome (List Transaction) × NodeClient
    → Outcome (List Transaction) × NodeClient
prepend txs (value more, t) = (value (txs ++ more), t)
prepend txs (fails message, t) = (fails message, t)
prepend txs (throws error, t) = (throws error, t)

prepend-append :
    (xs ys : List Transaction) (o : Outcome (List Transaction) × NodeClient)
    → prepend xs (prepend ys o) ≡ prepend (xs ++ ys) o
prepend-append xs ys (value more, t) = ap (λ txs. (value txs, t)) (sym (append_assoc xs ys more))
prepend-append xs ys (fails message, t) = refl
prepend-append xs ys (throws error, t) = refl

prepend-nil : (o : Outcome (List Transaction) × NodeClient) → prepend [] o ≡ o
prepend-nil (value more, t) = refl
prepend-nil (fails message, t) = refl
prepend-nil (throws error, t) = refl

-- The pages that follow one another from `page` on in the state `s`, and what they come to: a page
-- is the last one if it names no next page or has reached the bound, a page that fails or throws
-- ends the walk with its error, and any other is followed by the page that it names.
pub data Pages (doubles : Doubles) (max_pages : ℕ)
    : (page : ℕ) → (s : NodeClient) → Outcome (List Transaction) × NodeClient → Type 0 where
  page_ends :
      {page : ℕ} {s t : NodeClient} (result : MempoolPage)
      → mempool_page doubles page s ≡ (value result, t)
      → (result.next_page ≡ none) ⊎ (max_pages ≤ page)
      → Pages doubles max_pages page s (value result.mempool, t)
  page_leads :
      {page : ℕ} {s t : NodeClient} (result : MempoolPage) (following : ℕ)
      (o : Outcome (List Transaction) × NodeClient)
      → mempool_page doubles page s ≡ (value result, t)
      → result.next_page ≡ some following
      → page < max_pages
      → Pages doubles max_pages following t o
      → Pages doubles max_pages page s (prepend result.mempool o)
  page_fails :
      {page : ℕ} {s t : NodeClient} (message : Bytes)
      → mempool_page doubles page s ≡ (fails message, t)
      → Pages doubles max_pages page s (fails message, t)
  page_throws :
      {page : ℕ} {s t : NodeClient} (error : Error)
      → mempool_page doubles page s ≡ (throws error, t)
      → Pages doubles max_pages page s (throws error, t)

module _ (doubles : Doubles) where
  -- What mempool_loop makes of a page.
  abbrev next_round :
      (go : ℕ → List Transaction → NodeAction (List Transaction)) (max_pages page : ℕ)
      (all : List Transaction)
      → MempoolPage
      → NodeAction (List Transaction)
  next_round go max_pages page all result = elim result.next_page [
    | none ↦ give (all ++ result.mempool)
    | some next ↦ elim (leb max_pages page) [
      | true ↦ give (all ++ result.mempool)
      | false ↦ go next (all ++ result.mempool)
    ]
  ]

  -- The walk from a page on, and that a call of the loop comes to the same behind `all`.
  abbrev Collects :
      (max_pages page : ℕ) (all : List Transaction) (s : NodeClient)
      → Outcome (List Transaction) × NodeClient
      → Type 0
  Collects max_pages page all s o =
      (walk : Outcome (List Transaction) × NodeClient) × Pages doubles max_pages page s walk
      × (o ≡ prepend all walk)

  mempool_loop-Collects :
      (rounds max_pages page : ℕ) (all : List Transaction) (s : NodeClient)
      → answer_bound s < rounds
      → Collects max_pages page all s (mempool_loop doubles rounds max_pages page all s)
  unfolding mempool_loop
  mempool_loop-Collects zero max_pages page all s h = absurd (omega arith)
  mempool_loop-Collects (suc rounds) max_pages page all s h =
      after (mempool_page doubles page s) refl (mempool_page-Uses doubles page s)
        (mempool_loop doubles rounds max_pages)
        λ following all t less.
          mempool_loop-Collects rounds max_pages following all t (omega (arith, h, less))
    where
      at_bound :
          (test : Bool)
          → leb max_pages page ≡ test
          → (result : MempoolPage) (following : ℕ) (t : NodeClient)
          → mempool_page doubles page s ≡ (value result, t)
          → result.next_page ≡ some following
          → (go : List Transaction → NodeAction (List Transaction))
          → Collects max_pages following (all ++ result.mempool) t (go (all ++ result.mempool) t)
          → Collects max_pages page all s (
              (elim test as (λ _. NodeAction (List Transaction)) [
                | true ↦ give (all ++ result.mempool)
                | false ↦ go (all ++ result.mempool)
              ])
                t)
      at_bound true b result following t e n go ih =
          ((value result.mempool, t), page_ends result e (inr (le_of_leb max_pages page b)), refl)
      at_bound false b result following t e n go (walk, pages, same) = (
        prepend result.mempool walk,
        page_leads result following walk e n (lt_of_leb max_pages page b) pages,
        same ∙ sym (prepend-append all result.mempool walk),
      )

      after :
          (o : Outcome MempoolPage × NodeClient)
          → mempool_page doubles page s ≡ o
          → Uses 4 o (answer_bound s)
          → (go : ℕ → List Transaction → NodeAction (List Transaction))
          → ((following : ℕ) (all : List Transaction) (t : NodeClient)
              → answer_bound t < answer_bound s
              → Collects max_pages following all t (go following all t))
          → Collects max_pages page all s (continue_with o (next_round go max_pages page all))
      after (value result, t) e u go ih = elim (Option-cases result.next_page) [
        | inl n ↦ rw n ((value result.mempool, t), page_ends result e (inl n), refl)
        | inr (following, n) ↦ rw n (
            at_bound (leb max_pages page) refl result following t e n (go following)
              (ih following (all ++ result.mempool) t (omega (arith, u))))
      ]
      after (fails message, t) e u go ih = ((fails message, t), page_fails message e, refl)
      after (throws error, t) e u go ih = ((throws error, t), page_throws error e, refl)

  -- Whatever the node answers, mempool_all walks the pages from page 0 on, each named by the one
  -- before it, up to one that names no next page or has a number of max_pages at least, and comes to
  -- all their transactions in order and the state behind the last page; a page that fails or throws
  -- ends it in the same way and the same state.
  pub mempool_all-Pages :
      (max_pages : ℕ) (s : NodeClient)
      → Pages doubles max_pages 0 s (mempool_all doubles max_pages s)
  unfolding mempool_all
  mempool_all-Pages max_pages s =
      let (walk, pages, same) =
        mempool_loop-Collects (answer_bound s + 1) max_pages 0 [] s (omega arith) in
      subst (Pages doubles max_pages 0 s) (sym (same ∙ prepend-nil walk)) pages
