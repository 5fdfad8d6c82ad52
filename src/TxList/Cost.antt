-- ===== src/TxList/Cost.antt =====
-- The total cost and the caps of a list of transactions.
use pangu.Prelude.{
  ℕ, ◌+◌, ◌≡◌, refl, ap, ◌∙◌, Bool, none, some, List, [], ◌∷◌, arith, ltb, leb, ◌==◌, ◌&&◌, lookup,
  insert, Option-cases, Bool-cases, inl, inr,
}
use pangu.Prelude.Int.{pos, ◌-ℤ◌, int_laws}
use pangu.Message.{Transaction}
use pangu.TxList.{
  cost, SortedMap, get_tx, put, kept, removed, is_nil, filter_items, filter_reheap, reheap, TxList,
  sub_total_cost, is_underpriced, accept, add_tx, lowest_nonce, max_nonce, is_unaffordable,
  filter_invalids, filter_list,
}

-- The sums of the costs of a map, and of transactions.
unfoldable pub map_cost : List (ℕ × Transaction) → ℕ
map_cost [] = 0
map_cost ((n, tx) ∷ items) = cost tx + map_cost items

unfoldable pub txs_cost : List Transaction → ℕ
txs_cost [] = 0
txs_cost (tx ∷ txs) = cost tx + txs_cost txs

-- The total cost is that of the transactions in the list.
abbrev pub HasTotal : TxList → Type 0
HasTotal l = l.totalcost ≡ pos (map_cost l.txs.items)

pub sub_total_cost-pos :
    (a : ℕ) (txs : List Transaction) → sub_total_cost (pos (a + txs_cost txs)) txs ≡ pos a
unfolding sub_total_cost txs_cost
sub_total_cost-pos a [] = ground arith
sub_total_cost-pos a (tx ∷ txs) =
    let step : pos (a + (cost tx + txs_cost txs)) -ℤ pos (cost tx) ≡ pos (a + txs_cost txs) =
      omega int_laws in
    rw step (sub_total_cost-pos a txs)

pub kept-removed :
    (p : Transaction → Bool) (items : List (ℕ × Transaction))
    → map_cost items ≡ map_cost (kept p items) + txs_cost (removed p items)
unfolding kept removed map_cost txs_cost
kept-removed p [] = refl
kept-removed p ((n, tx) ∷ items) =
    let rest = kept-removed p items in
    elim (Bool-cases (p tx)) [ inl e ↦ rw e (omega arith) | inr e ↦ rw e (omega arith) ]

map_cost-insert :
    (tx : Transaction) (n : ℕ) (items : List (ℕ × Transaction))
    → map_cost (insert n tx items) + (elim (lookup n items) [ none ↦ 0 | some old ↦ cost old ])
      ≡ map_cost items + cost tx
unfolding map_cost lookup insert
map_cost-insert tx n [] = omega arith
map_cost-insert tx n ((m, old) ∷ items) =
    let rest = map_cost-insert tx n items in
    elim (Bool-cases (m == n)) [ inl e ↦ ground arith | inr e ↦ ground (arith, rest) ]

-- `Add` keeps the total cost that of the transactions in the list, whether the transaction is new,
-- replaces one or is refused.
pub add_tx-HasTotal :
    (l : TxList) (tx : Transaction) (price_bump : ℕ)
    → HasTotal l
    → HasTotal (add_tx l tx price_bump).0
unfolding add_tx accept put get_tx sub_total_cost
add_tx-HasTotal l tx price_bump h =
    let sum = map_cost-insert tx tx.nonce l.txs.items in
    elim (Option-cases (lookup tx.nonce l.txs.items)) [
      | inl e ↦
          let sum' : map_cost (insert tx.nonce tx l.txs.items) + 0
              ≡ map_cost l.txs.items + cost tx =
            rw e at sum in
          rw (e, h, add_tx) (omega int_laws)
      | inr (old, e) ↦
          let sum' : map_cost (insert tx.nonce tx l.txs.items) + cost old
              ≡ map_cost l.txs.items + cost tx =
            rw e at sum in
          elim (Bool-cases (is_underpriced old tx price_bump)) [
            | inl u ↦ rw (e, u, add_tx) h
            | inr u ↦ rw (e, u, h, add_tx) (omega int_laws)
          ]
    ]

pub filter_reheap-kept :
    (p : Transaction → Bool) (m : SortedMap)
    → ((filter_reheap p m).0.items ≡ kept p m.items) × ((filter_reheap p m).1 ≡ removed p m.items)
unfolding filter_reheap filter_items reheap
filter_reheap-kept p m = elim (Bool-cases (is_nil (removed p m.items))) [
  | inl e ↦ rw (e, filter_reheap) (refl, refl)
  | inr e ↦ rw (e, filter_reheap) (refl, refl)
]

filter_invalids-HasTotal :
    (l : TxList) (cost_limit gas_limit : ℕ) (m : SortedMap) (gone : List Transaction)
    → (l.totalcost ≡ pos (map_cost m.items + txs_cost gone))
    → HasTotal (filter_invalids l cost_limit gas_limit m gone).0
unfolding filter_invalids filter_items reheap txs_cost sub_total_cost
filter_invalids-HasTotal l cost_limit gas_limit m [] h = rw h (ground arith)
filter_invalids-HasTotal l cost_limit gas_limit m (tx ∷ gone) h =
    let paid = sub_total_cost-pos (map_cost m.items) (tx ∷ gone) in
    let total : sub_total_cost l.totalcost (tx ∷ gone) ≡ pos (map_cost m.items) = rw h paid in
    let above = λ (other : Transaction). ltb (lowest_nonce max_nonce (tx ∷ gone)) other.nonce in
    let parts = kept-removed above m.items in
    let rest = sub_total_cost-pos (map_cost (kept above m.items)) (removed above m.items) in
    elim (Bool-cases l.strict) [
      | inl e ↦
          rw e (ap (λ t. sub_total_cost t (removed above m.items)) (total ∙ ap pos parts) ∙ rest)
      | inr e ↦ rw e total
    ]

-- `Filter` keeps the total cost that of the transactions in the list, in strict mode also when it takes
-- out what the removed transactions invalidate.
pub filter_list-HasTotal :
    (l : TxList) (cost_limit gas_limit : ℕ)
    → HasTotal l
    → HasTotal (filter_list l cost_limit gas_limit).0
unfolding filter_list
filter_list-HasTotal l cost_limit gas_limit h =
    let p = is_unaffordable cost_limit gas_limit in
    let (left, gone) = filter_reheap-kept p l.txs in
    let parts = kept-removed p l.txs.items in
    elim (Bool-cases (leb l.costcap cost_limit && leb l.gascap gas_limit)) [
      | inl e ↦ rw (e, filter_list) h
      | inr e ↦
          rw (e, filter_list)
            (filter_invalids-HasTotal l cost_limit gas_limit (filter_reheap p l.txs).0
              (filter_reheap p l.txs).1 (rw (left, gone) (h ∙ ap pos parts)))
    ]
