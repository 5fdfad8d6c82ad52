-- ===== src/Classify/Kind.antt =====
-- `ClassifyTx` makes its groups of the transactions that it is given.
use pangu.Prelude.{
  ℕ, ◌+◌, suc, zero, Bool, List, [], ◌∷◌, ◌++◌, ◌==◌, length, map, All, All-append, Returns,
  Returns-bind, Bool-cases, inl, inr,
}
use pangu.Message.{Transaction}
use pangu.Classify.Resources.{Readable, merge_access_list-some}
use pangu.Classify.{
  is_conflict, TxClass, new_tx_class_list, absorb, merge_classes, add_to_group, group, group_less,
  classify_tx,
}

module _ (Fit : Transaction → Type 0) where
  abbrev Within : List TxClass → Type 0
  Within xs = All (λ x. Fit x.tx) xs

  abbrev Grouped : List (ℕ × List Transaction) → Type 0
  Grouped groups = All (λ g. All Fit g.1) groups

  absorb-fit :
      (x : TxClass) (ys : List TxClass)
      → Fit x.tx
      → Within ys
      → Fit (absorb x ys).0.tx × Within (absorb x ys).1
  unfolding absorb
  absorb-fit x [] f k = (f, tt)
  absorb-fit x (y ∷ ys) f k = elim (Bool-cases (is_conflict x.tx_resource y.tx_resource)) [
    | inl e ↦
        let (g, rest) =
          absorb-fit (record x { tx_resource = x.tx_resource ++ y.tx_resource }) ys f k.1 in
        rw (e, absorb) (g, (k.0, rest))
    | inr e ↦ let (g, rest) = absorb-fit x ys f k.1 in rw (e, absorb) (g, (k.0, rest))
  ]

  merge_classes-fit : (n : ℕ) (xs : List TxClass) → Within xs → Within (merge_classes n xs)
  unfolding merge_classes
  merge_classes-fit zero xs k = k
  merge_classes-fit (suc n) [] k = tt
  merge_classes-fit (suc n) (x ∷ xs) k =
      let (f, rest) = absorb-fit x xs k.0 k.1 in (f, merge_classes-fit n (absorb x xs).1 rest)

  add_to_group-fit :
      (i : ℕ) (tx : Transaction) (groups : List (ℕ × List Transaction))
      → Fit tx
      → Grouped groups
      → Grouped (add_to_group i tx groups)
  unfolding add_to_group
  add_to_group-fit i tx [] f k = ((f, tt), tt)
  add_to_group-fit i tx ((j, txs) ∷ groups) f k = elim (Bool-cases (j == i)) [
    | inl e ↦ rw (e, add_to_group) (All-append Fit txs (tx ∷ []) k.0 (f, tt), k.1)
    | inr e ↦ rw (e, add_to_group) (k.0, add_to_group-fit i tx groups f k.1)
  ]

  group-fit :
      (xs : List TxClass) (groups : List (ℕ × List Transaction))
      → Within xs
      → Grouped groups
      → Grouped (group xs groups)
  unfolding group
  group-fit [] groups f k = k
  group-fit (x ∷ xs) groups f k =
      group-fit xs (add_to_group x.id x.tx groups) f.1 (add_to_group-fit x.id x.tx groups f.0 k)

  new_tx_class_list-fit :
      (i : ℕ) (txs : List Transaction)
      → All (λ tx. Readable tx.access_list) txs
      → All Fit txs
      → Returns Within (new_tx_class_list i txs)
  unfolding new_tx_class_list
  new_tx_class_list-fit i [] r f = tt
  new_tx_class_list-fit i (tx ∷ txs) (r, k) f =
      let (rs, e) = merge_access_list-some tx.access_list r in
      rw (e, Returns)
        (Returns-bind _ _ (new_tx_class_list (i + 1) txs) _
          (new_tx_class_list-fit (i + 1) txs k f.1) (λ rest c. (f.0, c)))

  sorted_groups-fit :
      (sort : List Transaction → List Transaction)
      → ((txs : List Transaction) → All Fit txs → All Fit (sort txs))
      → (groups : List (ℕ × List Transaction)) → Grouped groups
      → All (All Fit) (map (λ g. sort g.1) groups)
  sorted_groups-fit sort kept [] k = tt
  sorted_groups-fit sort kept ((i, txs) ∷ groups) k =
      (kept txs k.0, sorted_groups-fit sort kept groups k.1)

  -- With a sort that keeps a kind of transactions, the groups of transactions of that kind are of that
  -- kind.
  pub classify_tx-fit :
      (sort : (Transaction → Transaction → Bool) → List Transaction → List Transaction)
      (sender : Transaction → ℕ) (txs : List Transaction)
      → ((less : Transaction → Transaction → Bool) (xs : List Transaction)
          → All Fit xs
          → All Fit (sort less xs))
      → All (λ tx. Readable tx.access_list) txs
      → All Fit txs
      → Returns (All (All Fit)) (classify_tx sort sender txs)
  unfolding classify_tx
  classify_tx-fit sort sender txs kept r f =
      Returns-bind _ _ (new_tx_class_list 0 txs) _ (new_tx_class_list-fit 0 txs r f) (λ classes c.
        sorted_groups-fit (sort (group_less sender)) (kept (group_less sender))
          (group (merge_classes (length classes) classes) [])
          (group-fit (merge_classes (length classes) classes) []
            (merge_classes-fit (length classes) classes c) tt))
