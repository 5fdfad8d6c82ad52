-- ===== src/Executor/Blocks.antt =====
-- executor/executor_server.go: what `ExecuteLoop` makes of the transactions of its events.
use pangu.Prelude.{
  ℕ, ◌+◌, ◌≡◌, refl, Bool, Option, none, some, List, [], ◌∷◌, ◌++◌, ◌>>=◌, arith, ◌≤◌, ==_iff, All,
  Returns, Returns-bind, Returns-meet,
}
use pangu.World.{State}
use pangu.Message.{Transaction, serial_less}
use pangu.Thread.Calm.{IsCalm}
use pangu.Thread.Account.{count_txs, count_receipts, count_errors}
use pangu.Thread.Process.{Processed, process, count_groups, Settles, process-count}
use pangu.Classify.{classify_tx}
use pangu.Classify.Resources.{Readable}
use pangu.Classify.Groups.{classify_tx-count}
use pangu.Classify.Kind.{classify_tx-fit}
use pangu.Executor.{Chain, Node, init_header, begin_block, sender_of, execute_event, execute_loop}

-- How often a hash stands among the receipts and errors of blocks, and in events.
unfoldable pub count_blocks : ℕ → List Processed → ℕ
count_blocks h [] = 0
count_blocks h (p ∷ ps) = count_receipts h p.receipt + count_errors h p.err_tx + count_blocks h ps

count_blocks-append :
    (h : ℕ) (ps qs : List Processed)
    → count_blocks h (ps ++ qs) ≡ count_blocks h ps + count_blocks h qs
unfolding count_blocks
count_blocks-append h [] qs = omega arith
count_blocks-append h (p ∷ ps) qs = let e = count_blocks-append h ps qs in omega arith

one_more : (tx : Transaction) (txs : List Transaction) → 1 ≤ count_txs tx.hash (tx ∷ txs)
unfolding count_txs
one_more tx txs = let e = (==_iff tx.hash tx.hash).1 refl in rw e (omega arith)

-- What the node is to do: a sort keeps the transactions and their kind, a commit and a write succeed, and
-- `ApplyTransaction` does not panic on the kind of transactions and states, which it, `Finalise` and the
-- states at the roots of the chain keep to.
pub record IsHealthy (Fit : Transaction → Type 0) (Safe : State → Type 0) (node : Node)
    : Type 0 where
  pub sorts :
      (h : ℕ) (less : Transaction → Transaction → Bool) (txs : List Transaction)
      → count_txs h (node.sort less txs) ≡ count_txs h txs
  pub sorts_fit :
      (less : Transaction → Transaction → Bool) (txs : List Transaction)
      → All Fit txs
      → All Fit (node.sort less txs)
  pub commits : (st : State) → (root : ℕ) × (node.commit st ≡ some root)
  pub writes : (c : Chain) (p : Processed) → (next : Chain) × (node.write_block c p ≡ some next)
  pub calm : IsCalm node.machine node.signer (init_header node) Fit Safe
  pub finalises : (st : State) → Safe st → Safe (node.finalise st)
  pub starts : (root : ℕ) → Safe (node.state_at root)

module _ (Fit : Transaction → Type 0) (Safe : State → Type 0) (node : Node)
    (healthy : IsHealthy Fit Safe node) where
  processed :
      (h : ℕ) (tx : Transaction) (txs : List Transaction) (chain : Chain)
      (groups : List (List Transaction))
      → count_groups tx.hash groups ≡ count_txs tx.hash (tx ∷ txs)
      → All (All Fit) groups
      → Returns (Settles h groups) (
          process node.machine node.signer
            (init_header node)
            (node.sort serial_less)
            node.finalise
            node.commit
            groups
            (begin_block node chain))
  unfolding begin_block count_groups
  processed h tx txs chain [] c fit = absurd (let b = one_more tx txs in omega arith)
  processed h tx txs chain (g ∷ groups) c fit =
      process-count node.machine node.signer (init_header node) (node.sort serial_less)
        node.finalise node.commit Fit Safe healthy.calm h (healthy.sorts h serial_less)
        (healthy.sorts_fit serial_less) healthy.finalises healthy.commits g groups
        (begin_block node chain) 0 refl fit (healthy.starts chain.root)

  execute_event-count :
      (h : ℕ) (chain : Chain) (txs : List Transaction)
      → All (λ tx. Readable tx.access_list) txs
      → All Fit txs
      → Returns (λ r. count_blocks h r.1 ≡ count_txs h txs) (execute_event node chain txs)
  unfolding execute_event count_blocks count_txs
  execute_event-count h chain [] readable fit = refl
  execute_event-count h chain (tx ∷ txs) readable fit =
      let (groups, classified, all, (first, kind)) =
        Returns-meet _ _ (classify_tx node.sort (sender_of node) (tx ∷ txs))
          (classify_tx-count node.sort (sender_of node) h (tx ∷ txs) (healthy.sorts h) readable)
          (Returns-pair _ _ (classify_tx node.sort (sender_of node) (tx ∷ txs))
            (classify_tx-count node.sort (sender_of node) tx.hash (tx ∷ txs) (healthy.sorts tx.hash)
              readable)
            (classify_tx-fit Fit node.sort (sender_of node) (tx ∷ txs) healthy.sorts_fit readable
              fit)) in
      let done = processed h tx txs chain groups first kind in
      rw classified (
        Returns-bind _ _
          (process node.machine node.signer (init_header node) (node.sort serial_less) node.finalise
            node.commit groups (begin_block node chain))
          _ done (λ result s. written result groups all s))
    where
      Returns-pair :
          (P Q : List (List Transaction) → Type 0) (r : Option (List (List Transaction)))
          → Returns P r
          → Returns Q r
          → Returns (λ x. P x × Q x) r
      Returns-pair P Q none p q = p
      Returns-pair P Q (some x) p q = (p, q)

      written :
          (result : Option Processed) (groups : List (List Transaction))
          → count_groups h groups ≡ count_txs h (tx ∷ txs)
          → Settles h groups result
          → Returns
              (λ r. count_blocks h r.1 ≡ count_txs h (tx ∷ txs))
              (elim result as (λ _. Option (Chain × List Processed)) [
                | none ↦ none
                | some p ↦ node.write_block chain p >>= λ next. some (next, p ∷ [])
              ])
      written none groups all s = s
      written (some p) groups all s =
          let (next, e) = healthy.writes chain p in rw (e, Returns) (omega arith)

  -- On a node whose sort, commit and writes do what they are for, and on a kind of transactions and states
  -- on which `ApplyTransaction` does not panic and which the node keeps to, no transaction is lost, on the
  -- schedule that runs the groups of a block one after the other: `ExecuteLoop` handles any events of
  -- transactions of that kind with readable access lists without a panic, and each hash stands as often
  -- among the receipts and the final errors of its blocks as in the events.
  pub execute_loop-count :
      (h : ℕ) (chain : Chain) (events : List (List Transaction))
      → All (All (λ tx. Readable tx.access_list)) events
      → All (All Fit) events
      → Returns (λ r. count_blocks h r.1 ≡ count_groups h events) (execute_loop node chain events)
  unfolding execute_loop count_blocks count_groups
  execute_loop-count h chain [] readable fit = refl
  execute_loop-count h chain (txs ∷ events) readable fit =
      Returns-bind _ _ (execute_event node chain txs) _
        (execute_event-count h chain txs readable.0 fit.0)
        (λ a c.
          Returns-bind _ _ (execute_loop node a.0 events) _
            (execute_loop-count h a.0 events readable.1 fit.1)
            (λ b d. let e = count_blocks-append h a.1 b.1 in omega arith))
