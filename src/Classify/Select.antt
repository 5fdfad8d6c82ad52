-- ===== src/Classify/Select.antt =====
-- `SelectTxs` never returns a selection.
use pangu.Prelude.{
  ℕ, ◌+◌, suc, zero, ◌≡◌, ◌<◌, refl, false, Option, none, some, List, [], ◌∷◌, ◌++◌, arith, ltb,
  length, lookup, insert,
}
use pangu.Message.{Transaction}
use pangu.Classify.{find_max_gas_price, panicked, select_loop, select_txs}

-- How many transactions a map of queues holds.
unfoldable pub count_queued : List (ℕ × List Transaction) → ℕ
count_queued [] = 0
count_queued ((a, txs) ∷ rest) = length txs + count_queued rest

count_queued-insert :
    (a : ℕ) (tx : Transaction) (txs : List Transaction) (m : List (ℕ × List Transaction))
    → (lookup a m ≡ some (tx ∷ txs))
    → count_queued (insert a txs m) + 1 ≡ count_queued m
unfolding count_queued lookup insert
count_queued-insert a tx txs [] h = ground arith
count_queued-insert a tx txs ((b, queue) ∷ m) h = ground (arith, count_queued-insert a tx txs m)

select_loop-panicked :
    (turns gas_limit : ℕ) (selected : List Transaction) (m : List (ℕ × List Transaction))
    → (count_queued m < turns)
    → select_loop turns gas_limit 0 selected m ≡ panicked
unfolding select_loop
select_loop-panicked zero gas_limit selected m h = ground arith
select_loop-panicked (suc n) gas_limit selected m h = go _ refl (λ addr tx txs f.
    let less = count_queued-insert addr tx txs m f in
    select_loop-panicked n gas_limit (selected ++ (tx ∷ [])) (insert addr txs m) (omega arith))
  where
    is_low : ltb gas_limit 0 ≡ false
    is_low = ground arith

    turn :
        (addr : ℕ) (o : Option (List Transaction))
        → (find_max_gas_price m 0 0 ≡ some addr)
        → (lookup addr m ≡ o)
        → ((tx : Transaction) (txs : List Transaction)
            → (lookup addr m ≡ some (tx ∷ txs))
            → select_loop n gas_limit 0 (selected ++ (tx ∷ [])) (insert addr txs m) ≡ panicked)
        → select_loop (suc n) gas_limit 0 selected m ≡ panicked
    turn addr none e f rest = rw (is_low, e, f, select_loop) refl
    turn addr (some []) e f rest = rw (is_low, e, f, select_loop) refl
    turn addr (some (tx ∷ txs)) e f rest = rw (is_low, e, f, select_loop) (rest tx txs f)

    go :
        (o : Option ℕ)
        → (find_max_gas_price m 0 0 ≡ o)
        → ((addr : ℕ) (tx : Transaction) (txs : List Transaction)
            → (lookup addr m ≡ some (tx ∷ txs))
            → select_loop n gas_limit 0 (selected ++ (tx ∷ [])) (insert addr txs m) ≡ panicked)
        → select_loop (suc n) gas_limit 0 selected m ≡ panicked
    go none e rest = rw (is_low, e, select_loop) refl
    go (some addr) e rest = turn addr (lookup addr m) e refl (rest addr)

-- `SelectTxs` returns nothing for any queues and any gas limit, not even for none: after as many turns
-- as there are transactions it has panicked, since its sum of gas stays at zero.
pub select_txs-panicked :
    (tx_map : List (ℕ × List Transaction)) (gas_limit turns : ℕ)
    → (count_queued tx_map < turns)
    → select_txs turns tx_map gas_limit ≡ panicked
unfolding select_txs
select_txs-panicked tx_map gas_limit turns h = select_loop-panicked turns gas_limit [] tx_map h
