-- ===== src/TxList/Ready.antt =====
-- core/txpool/legacypool/list.go: taking the first transactions out of a list, those below a nonce
-- (`Forward`) and those that follow each other from a nonce on (`Ready`). A popped nonce whose item is
-- missing gives a nil transaction, on which the sum of the costs panics.
pub mod Total
use pangu.Prelude.{
  ℕ, ◌+◌, ◌%◌, Bool, true, false, Option, none, some, List, [], ◌∷◌, ◌>>=◌, ltb, ◌==◌,
  if◌then◌else◌, map, lookup, delete,
}
use pangu.Evm.{u64}
use pangu.Message.{Transaction}
use pangu.TxList.{SortedMap, TxList, sub_total_cost}

abbrev pub Popped : Type 0
Popped = List (Option Transaction) × List (ℕ × Transaction) × List ℕ

-- The loop of `Forward` over the heap.
unfoldable pub forward_loop : ℕ → List (ℕ × Transaction) → List ℕ → Popped
unfolding lookup delete
forward_loop threshold items [] = ([], items, [])
forward_loop threshold items (n ∷ ns) =
    let (txs, left, index) = forward_loop threshold (delete n items) ns in
    if ltb n threshold then (lookup n items ∷ txs, left, index) else ([], items, n ∷ ns)

-- The loop of `Ready`, whose next nonce wraps around.
unfoldable pub ready_loop : ℕ → List (ℕ × Transaction) → List ℕ → Popped
unfolding lookup delete
ready_loop next items [] = ([], items, [])
ready_loop next items (n ∷ ns) =
    let (txs, left, index) = ready_loop ((next + 1) % u64) (delete n items) ns in
    if n == next then (lookup n items ∷ txs, left, index) else ([], items, n ∷ ns)

-- A slice from an index on; a cached order is as long as the map, so the index is in its range.
abbrev drop {ℓ} : {A : Type ℓ} → List ℕ → List A → List A
drop [] xs = xs
drop (n ∷ ns) [] = []
drop (n ∷ ns) (x ∷ xs) = drop ns xs

-- `Forward` of the map: the front of a cached order goes with the transactions.
unfoldable pub forward : SortedMap → ℕ → SortedMap × List (Option Transaction)
unfolding forward_loop
forward m threshold =
    let (txs, left, index) = forward_loop threshold m.items m.index in
    (
      record {
        items = left;
        index = index;
        cache = (elim m.cache [
          | none ↦ none
          | some cached ↦ some (drop (map (λ tx. 0) txs) cached)
        ]);
      },
      txs,
    )

-- `Ready` of the map.
unfoldable pub ready : SortedMap → ℕ → SortedMap × List (Option Transaction)
unfolding ready_loop
ready m start = elim m.index [
  | [] ↦ (m, [])
  | n ∷ ns ↦
      let (txs, left, index) = ready_loop n m.items (n ∷ ns) in
      if ltb start n then (m, []) else (record { items = left; index = index; cache = none }, txs)
]

-- The transactions, if none of them is nil.
unfoldable pub all_some : List (Option Transaction) → Option (List Transaction)
all_some [] = some []
all_some (none ∷ os) = none
all_some (some tx ∷ os) = all_some os >>= λ txs. some (tx ∷ txs)

-- What `Forward` and `Ready` of the list do with the transactions of the map.
unfoldable pub settle_total :
    TxList → SortedMap × List (Option Transaction) → Option (TxList × List Transaction)
unfolding all_some sub_total_cost
settle_total l (m, os) = all_some os >>= λ txs.
    some (record l { txs = m; totalcost = sub_total_cost l.totalcost txs }, txs)

unfoldable pub forward_list : TxList → ℕ → Option (TxList × List Transaction)
unfolding forward settle_total
forward_list l threshold = settle_total l (forward l.txs threshold)

unfoldable pub ready_list : TxList → ℕ → Option (TxList × List Transaction)
unfolding ready settle_total
ready_list l start = settle_total l (ready l.txs start)
