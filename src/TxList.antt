-- ===== src/TxList.antt =====
-- core/txpool/legacypool/list.go: the transactions of one account. `items` is the Go map in the order of
-- a loop; the heap of nonces is the list that its pops give, in increasing order, so its root is the
-- head, and `heap.Init` sorts. Sorted slices of transactions are the work of the standard library's
-- sort, here by insertion.
pub mod Cost
pub mod Ready
pub mod Sound
pub mod Cap
use pangu.Prelude.{
  ℕ, ◌+◌, ◌-◌, ◌*◌, ◌/◌, suc, zero, Bool, true, false, not, ◌&&◌, ◌||◌, Option, none, some, List,
  [], ◌∷◌, ◌++◌, ltb, leb, ◌==◌, if◌then◌else◌, length, lookup, insert, delete,
}
use pangu.Prelude.Int.{ℤ, pos, ◌+ℤ◌, ◌-ℤ◌}
use pangu.Message.{Transaction}

-- `Cost` of core/types/transaction.go.
unfoldable pub cost : Transaction → ℕ
cost tx = tx.fee_cap * tx.gas_limit + tx.value

pub record SortedMap : Type 0 where
  pub items : List (ℕ × Transaction)
  pub index : List ℕ
  pub cache : Option (List Transaction)

unfoldable pub new_sorted_map : SortedMap
new_sorted_map = record { items = []; index = []; cache = none }

unfoldable pub push : ℕ → List ℕ → List ℕ
push n [] = n ∷ []
push n (m ∷ ms) = if ltb m n then m ∷ push n ms else n ∷ m ∷ ms

-- `m.items[nonce]`, with nil for a missing key.
unfoldable pub get_tx : SortedMap → ℕ → Option Transaction
unfolding lookup
get_tx m nonce = lookup nonce m.items

unfoldable pub put : SortedMap → Transaction → SortedMap
unfolding lookup insert push
put m tx = record {
  items = insert tx.nonce tx m.items;
  index = (elim (lookup tx.nonce m.items) [ none ↦ push tx.nonce m.index | some _ ↦ m.index ]);
  cache = none;
}

-- The heap again from the keys of the map.
unfoldable pub reheap_index : List (ℕ × Transaction) → List ℕ
unfolding push
reheap_index [] = []
reheap_index ((n, tx) ∷ items) = push n (reheap_index items)

unfoldable pub reheap : SortedMap → SortedMap
unfolding reheap_index
reheap m = record { items = m.items; index = reheap_index m.items; cache = none }

-- What the loop of `filter` keeps and what it removes.
unfoldable pub kept : (Transaction → Bool) → List (ℕ × Transaction) → List (ℕ × Transaction)
kept p [] = []
kept p ((n, tx) ∷ items) = if p tx then kept p items else (n, tx) ∷ kept p items

unfoldable pub removed : (Transaction → Bool) → List (ℕ × Transaction) → List Transaction
removed p [] = []
removed p ((n, tx) ∷ items) = if p tx then tx ∷ removed p items else removed p items

unfoldable pub is_nil : List Transaction → Bool
is_nil [] = true
is_nil (_ ∷ _) = false

-- `filter`: the heap stays as it is.
unfoldable pub filter_items : (Transaction → Bool) → SortedMap → SortedMap × List Transaction
unfolding kept removed is_nil
filter_items p m = (
  record {
    items = kept p m.items;
    index = m.index;
    cache = if is_nil (removed p m.items) then m.cache else none;
  },
  removed p m.items,
)

-- `Filter`
unfoldable pub filter_reheap : (Transaction → Bool) → SortedMap → SortedMap × List Transaction
unfolding filter_items reheap is_nil
filter_reheap p m =
    let (m', gone) = filter_items p m in (if is_nil gone then m' else reheap m', gone)

unfoldable pub drop_nonce : ℕ → List ℕ → List ℕ
drop_nonce n [] = []
drop_nonce n (m ∷ ms) = if m == n then ms else m ∷ drop_nonce n ms

-- `Remove` of the map.
unfoldable pub remove_nonce : SortedMap → ℕ → SortedMap × Bool
unfolding lookup delete drop_nonce
remove_nonce m nonce = elim (lookup nonce m.items) [
  | none ↦ (m, false)
  | some _ ↦ (
    record { items = delete nonce m.items; index = drop_nonce nonce m.index; cache = none },
    true,
  )
]

-- `list`; the total cost is a `*big.Int`.
pub record TxList : Type 0 where
  pub strict : Bool
  pub txs : SortedMap
  pub costcap : ℕ
  pub gascap : ℕ
  pub totalcost : ℤ

unfoldable pub new_list : Bool → TxList
unfolding new_sorted_map
new_list strict = record {
  strict = strict;
  txs = new_sorted_map;
  costcap = 0;
  gascap = 0;
  totalcost = pos 0;
}

-- `subTotalCost`
unfoldable pub sub_total_cost : ℤ → List Transaction → ℤ
unfolding cost
sub_total_cost total [] = total
sub_total_cost total (tx ∷ txs) = sub_total_cost (total -ℤ pos (cost tx)) txs

-- Whether the new transaction may not replace the old one.
unfoldable pub is_underpriced : Transaction → Transaction → ℕ → Bool
is_underpriced old tx price_bump =
    leb tx.fee_cap old.fee_cap
    || leb tx.tip_cap old.tip_cap
    || ltb tx.fee_cap ((100 + price_bump) * old.fee_cap / 100)
    || ltb tx.tip_cap ((100 + price_bump) * old.tip_cap / 100)

-- The part of `Add` after the checks.
unfoldable pub accept : TxList → Transaction → ℤ → TxList
unfolding cost put
accept l tx total = record {
  strict = l.strict;
  txs = put l.txs tx;
  costcap = if ltb l.costcap (cost tx) then cost tx else l.costcap;
  gascap = if ltb l.gascap tx.gas_limit then tx.gas_limit else l.gascap;
  totalcost = total +ℤ pos (cost tx);
}

-- `Add`: whether the transaction is accepted, and the one that it replaces.
unfoldable pub add_tx : TxList → Transaction → ℕ → TxList × Bool × Option Transaction
unfolding get_tx is_underpriced accept sub_total_cost
add_tx l tx price_bump = elim (get_tx l.txs tx.nonce) [
  | none ↦ (accept l tx l.totalcost, true, none)
  | some old ↦
      if is_underpriced old tx price_bump
      then (l, false, none)
      else (accept l tx (sub_total_cost l.totalcost (old ∷ [])), true, some old)
]

abbrev pub max_nonce : ℕ
max_nonce = 18446744073709551615

unfoldable pub lowest_nonce : ℕ → List Transaction → ℕ
lowest_nonce low [] = low
lowest_nonce low (tx ∷ txs) = lowest_nonce (if ltb tx.nonce low then tx.nonce else low) txs

unfoldable pub is_unaffordable : ℕ → ℕ → Transaction → Bool
unfolding cost
is_unaffordable cost_limit gas_limit tx = ltb gas_limit tx.gas_limit || ltb cost_limit (cost tx)

-- The part of `Filter` after the removal of what cannot be paid: the strict mode and the total cost.
unfoldable pub filter_invalids :
    TxList → ℕ → ℕ → SortedMap → List Transaction → TxList × List Transaction × List Transaction
unfolding filter_items reheap lowest_nonce sub_total_cost
filter_invalids l cost_limit gas_limit m [] =
    (record l { costcap = cost_limit; gascap = gas_limit; txs = m }, [], [])
filter_invalids l cost_limit gas_limit m (tx ∷ gone) =
    let lowest = lowest_nonce max_nonce (tx ∷ gone) in
    let r = if l.strict then filter_items (λ other. ltb lowest other.nonce) m else (m, []) in
    (
      record {
        strict = l.strict;
        txs = reheap r.0;
        costcap = cost_limit;
        gascap = gas_limit;
        totalcost = sub_total_cost (sub_total_cost l.totalcost (tx ∷ gone)) r.1;
      },
      tx ∷ gone,
      r.1,
    )

-- `Filter` of the list: the transactions removed, and those that they invalidate.
unfoldable pub filter_list : TxList → ℕ → ℕ → TxList × List Transaction × List Transaction
unfolding filter_reheap filter_invalids is_unaffordable
filter_list l cost_limit gas_limit =
    let r = filter_reheap (is_unaffordable cost_limit gas_limit) l.txs in
    if leb l.costcap cost_limit && leb l.gascap gas_limit
    then (l, [], [])
    else filter_invalids l cost_limit gas_limit r.0 r.1

-- `Remove` of the list.
unfoldable pub remove_tx : TxList → Transaction → TxList × Bool × List Transaction
unfolding remove_nonce filter_reheap sub_total_cost
remove_tx l tx =
    let (m, found) = remove_nonce l.txs tx.nonce in
    let total = sub_total_cost l.totalcost (tx ∷ []) in
    let (m', invalids) = filter_reheap (λ other. ltb tx.nonce other.nonce) m in
    if not found
    then (l, false, [])
    else if l.strict
    then (record l { txs = m'; totalcost = sub_total_cost total invalids }, true, invalids)
    else (record l { txs = m; totalcost = total }, true, [])
