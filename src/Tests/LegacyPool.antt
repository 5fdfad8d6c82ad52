-- ===== src/Tests/LegacyPool.antt =====
-- A pool with two transactions of one account, which are promoted and of which the first is removed.
use pangu.Prelude.{
  ℕ, ◌≡◌, ◌≤◌, refl, true, false, none, some, List, [], ◌∷◌, Returns, length, ◌>>=◌, lookup, arith,
}
use pangu.Prelude.Int.{◌+ℤ◌, ◌-ℤ◌}
use pangu.StateDb.Reads.{get_nonce, get_balance}
use pangu.Validation.{Received}
use pangu.Lookup as Lookup
use pangu.TxList.{filter_list}
use pangu.TxList.Ready.Total.{IsSound}
use pangu.TxList.Cap.{cap_list}
use pangu.TxList.Sound.{filter_list-IsSound}
use pangu.TxList.Sound.Pops.{IsKeyed}
use pangu.TxList.Sound.Out.{Goes, cap_list-Goes}
use pangu.Pool.{LegacyPool, Config, Prices, remove_pool_tx}
use pangu.Pool.Places.{known_as}
use pangu.Pool.Valid.{IsConsistent}
use pangu.Pool.Remove.{remove_pool_tx-IsConsistent}
use pangu.Pool.Add.{add, add_txs_locked}
use pangu.Pool.Add.Batch.{filter_known, add_txs, Answers, add_txs-Answers}
use pangu.Pool.Add.Invariant.{Outcome, add-Outcome, add_txs_locked-IsConsistent}
use pangu.Pool.Reorg.{Head, demote_unexecutables}
use pangu.Pool.Reorg.Demote.{demote_unexecutables-Returns}
use pangu.Pool.Run.{
  new_pool, new_pool-IsConsistent, pending, queued, status, Call, add_call, remove_call,
  promote_call, demote_call, run, run-IsConsistent, Means, status-Means,
}
use pangu.Tests.Pool.{priced, rich, opened, by_ten, two_queued, two_queued-IsSound}

abbrev received : ℕ → ℕ → Received
received n price = record { tx = priced n price; tx_type = 1; size = 200 }

abbrev config : Config
config = record { price_bump = 10; global_slots = 4; global_queue = 2 }

-- A heap of prices with nothing to drop.
abbrev prices : Prices
prices = record { underpriced = λ tx. false; discard = λ slots force. ([], true) }

abbrev start : LegacyPool
start = new_pool [] (λ a. 1)

abbrev batch : List (Received × Prices)
batch = (received 2 2, prices) ∷ (received 1 3, prices) ∷ []

abbrev head : Head
head = record { nonce = λ a. 1; balance = λ a. 1000000; gas_limit = 30000 }

-- The first transaction is in a block, and the second one costs too much.
abbrev next_head : Head
next_head = record { nonce = λ a. 2; balance = λ a. 40000; gas_limit = 30000 }

abbrev calls : List Call
calls =
    add_call rich opened batch false
    ∷ promote_call head (10 ∷ [])
    ∷ remove_call 1
    ∷ demote_call next_head
    ∷ []

run-IsConsistent_example :
    Returns (λ q. IsConsistent by_ten q []) (run by_ten config 64 7 (new_pool [] (λ a. 1)) calls)
run-IsConsistent_example = run-IsConsistent by_ten config 64 7 [] (λ a. 1) calls

abbrev two_txs : LegacyPool
two_txs = (add_txs_locked rich opened by_ten config 7 start batch false).0

two_txs-IsConsistent : IsConsistent by_ten two_txs []
two_txs-IsConsistent =
    add_txs_locked-IsConsistent rich opened by_ten config 7 start batch false
      (new_pool-IsConsistent by_ten config 64 7 [] (λ a. 1))

status_of_first : status by_ten two_txs 1 ≡ queued
unfolding status add_txs_locked new_pool get_nonce get_balance ◌+ℤ◌
status_of_first = refl

status-Means_example : Means by_ten two_txs 1 (status by_ten two_txs 1)
status-Means_example = status-Means by_ten two_txs 1 two_txs-IsConsistent

-- The removal of the first transaction sends the second one back into the queue.
status_of_second :
    (run by_ten config 64 7
        (new_pool [] (λ a. 1))
        (add_call rich opened batch false ∷ promote_call head (10 ∷ []) ∷ remove_call 1 ∷ [])
      >>= λ q. some (status by_ten q 2))
    ≡ some queued
unfolding run status new_pool get_nonce get_balance ◌+ℤ◌ ◌-ℤ◌
status_of_second = refl

status_of_promoted :
    (run by_ten config 64 7
        (new_pool [] (λ a. 1))
        (add_call rich opened batch false ∷ promote_call head (10 ∷ []) ∷ [])
      >>= λ q. some (status by_ten q 2))
    ≡ some pending
unfolding run status new_pool get_nonce get_balance ◌+ℤ◌ ◌-ℤ◌
status_of_promoted = refl

third_is_new : Lookup.get two_txs.all 3 ≡ none
unfolding add_txs_locked new_pool get_nonce get_balance ◌+ℤ◌ Lookup.get
third_is_new = refl

add-Outcome_example :
    Outcome by_ten
      (received 3 2)
      (add rich opened by_ten config 7 two_txs (received 3 2) true prices)
add-Outcome_example =
    add-Outcome rich opened by_ten config 7 two_txs (received 3 2) true prices two_txs-IsConsistent
      third_is_new

remove_pool_tx-IsConsistent_example :
    IsConsistent by_ten (remove_pool_tx by_ten 10 7 two_txs 1).0 []
    × (Lookup.get (remove_pool_tx by_ten 10 7 two_txs 1).0.all
        ≡ known_as (Lookup.get two_txs.all) 1 none)
remove_pool_tx-IsConsistent_example =
    remove_pool_tx-IsConsistent by_ten 10 7 two_txs 1 two_txs-IsConsistent

demote_unexecutables-Returns_example :
    Returns (λ q. IsConsistent by_ten q []) (demote_unexecutables by_ten 10 64 7 next_head two_txs)
demote_unexecutables-Returns_example =
    demote_unexecutables-Returns by_ten 10 64 7 next_head two_txs two_txs-IsConsistent

keyed : IsKeyed two_queued.txs.items
unfolding lookup
keyed n t h = ground arith

cap_list-Goes_example :
    (g : Goes two_queued (cap_list two_queued 1)) × (length g.rest.txs.items ≤ 1)
cap_list-Goes_example = cap_list-Goes two_queued 1 two_queued-IsSound keyed

filter_list-IsSound_example : IsSound (filter_list two_queued 50000 21000).0
filter_list-IsSound_example = filter_list-IsSound two_queued 50000 21000 two_queued-IsSound

-- The first transaction is known, and the third is new.
abbrev second_batch : List (Received × Prices)
second_batch = (received 1 3, prices) ∷ (received 3 2, prices) ∷ []

add_txs-Answers_example :
    Returns
      (λ r.
        IsConsistent by_ten r.0 []
        × Answers rich opened by_ten config 7 30000 1 two_txs false second_batch
            (add_txs_locked rich opened by_ten config 7 two_txs
              (filter_known rich opened by_ten config 7 30000 1 two_txs second_batch false).1
              false).1
            r.1)
      (add_txs rich opened by_ten config 7 30000 1 two_txs second_batch false)
add_txs-Answers_example =
    add_txs-Answers rich opened by_ten config 7 30000 1 two_txs second_batch false
      two_txs-IsConsistent
