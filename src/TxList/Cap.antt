-- ===== src/TxList/Cap.antt =====
-- core/txpool/legacypool/list.go, `Cap`: the transactions with the highest nonces go. An index out of
-- range is a panic, `none`.
use pangu.Prelude.{
  ℕ, ◌-◌, suc, zero, Option, none, some, List, [], ◌∷◌, ◌>>=◌, ltb, leb, if◌then◌else◌, length,
  get_elem?, take, lookup, delete,
}
use pangu.Message.{Transaction}
use pangu.TxList.{SortedMap, TxList}
use pangu.TxList.Ready.{settle_total}

-- The loop: the dropped items, and the map that is left.
unfoldable pub cap_loop :
    ℕ
    → List ℕ
    → List (ℕ × Transaction)
    → ℕ
    → Option (List (Option Transaction) × List (ℕ × Transaction))
unfolding lookup delete
cap_loop threshold index items zero = some ([], items)
cap_loop threshold index items (suc n) =
    if ltb threshold (suc n)
    then (do
      nonce ← get_elem? index n
      (drops, left) ← cap_loop threshold index (delete nonce items) n
      some (lookup nonce items ∷ drops, left))
    else some ([], items)

-- `Cap` of the map.
unfoldable pub cap : SortedMap → ℕ → Option (SortedMap × List (Option Transaction))
unfolding cap_loop
cap m threshold =
    if leb (length m.items) threshold
    then some (m, [])
    else cap_loop threshold m.index m.items (length m.items) >>= λ (drops, left). some (
      record {
        items = left;
        index = take threshold m.index;
        cache = (elim m.cache [
          | none ↦ none
          | some cached ↦ some (take (length cached - length drops) cached)
        ]);
      },
      drops,
    )

-- `Cap` of the list.
unfoldable pub cap_list : TxList → ℕ → Option (TxList × List Transaction)
unfolding cap settle_total
cap_list l threshold = cap l.txs threshold >>= settle_total l
