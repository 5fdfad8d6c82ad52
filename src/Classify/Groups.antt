-- ===== src/Classify/Groups.antt =====
-- What `ClassifyTx` keeps, and where it separates transactions that conflict.
use pangu.Prelude.{
  ℕ, ◌+◌, suc, zero, ◌≡◌, refl, Bool, true, false, some, List, [], ◌∷◌, ◌++◌, arith, ◌==◌, length,
  map, All, Returns, Returns-bind,
}
use pangu.Message.{Transaction}
use pangu.Thread.Account.{one_if, count_txs}
use pangu.Thread.Process.{count_groups, count_txs-append}
use pangu.Classify.Resources.{Readable, merge_access_list-some, is_conflict-append}
use pangu.Classify.{
  Resource, is_conflict, merge_access_list, TxClass, new_tx_class_list, absorb, merge_classes,
  add_to_group, group, group_less, classify_tx,
}

-- How often a hash stands among classes, and among the entries of the map of groups.
unfoldable count_classes : ℕ → List TxClass → ℕ
count_classes h [] = 0
count_classes h (x ∷ xs) = one_if (x.tx.hash == h) + count_classes h xs

unfoldable count_entries : ℕ → List (ℕ × List Transaction) → ℕ
count_entries h [] = 0
count_entries h ((i, txs) ∷ groups) = count_txs h txs + count_entries h groups

absorb-count :
    (h : ℕ) (x : TxClass) (ys : List TxClass)
    → ((absorb x ys).0.tx.hash ≡ x.tx.hash) × (count_classes h (absorb x ys).1 ≡ count_classes h ys)
unfolding absorb count_classes
absorb-count h x [] = (refl, refl)
absorb-count h x (y ∷ ys) =
    let kept = absorb-count h x ys in
    let joined = absorb-count h (record x { tx_resource = x.tx_resource ++ y.tx_resource }) ys in
    ground arith

merge_classes-count :
    (h n : ℕ) (xs : List TxClass) → count_classes h (merge_classes n xs) ≡ count_classes h xs
unfolding merge_classes count_classes
merge_classes-count h zero xs = refl
merge_classes-count h (suc n) [] = refl
merge_classes-count h (suc n) (x ∷ xs) =
    let (same, kept) = absorb-count h x xs in
    let rest = merge_classes-count h n (absorb x xs).1 in rw (same, rest, kept) refl

add_to_group-count :
    (h i : ℕ) (tx : Transaction) (groups : List (ℕ × List Transaction))
    → count_entries h (add_to_group i tx groups) ≡ one_if (tx.hash == h) + count_entries h groups
unfolding add_to_group count_entries count_txs
add_to_group-count h i tx [] = omega arith
add_to_group-count h i tx ((j, txs) ∷ groups) =
    let more = count_txs-append h txs (tx ∷ []) in ground (arith, add_to_group-count h i tx groups)

group-count :
    (h : ℕ) (xs : List TxClass) (groups : List (ℕ × List Transaction))
    → count_entries h (group xs groups) ≡ count_classes h xs + count_entries h groups
unfolding group count_classes
group-count h [] groups = omega arith
group-count h (x ∷ xs) groups =
    let rest = group-count h xs (add_to_group x.id x.tx groups) in
    let one = add_to_group-count h x.id x.tx groups in omega arith

new_tx_class_list-count :
    (h i : ℕ) (txs : List Transaction)
    → All (λ tx. Readable tx.access_list) txs
    → Returns (λ xs. count_classes h xs ≡ count_txs h txs) (new_tx_class_list i txs)
unfolding new_tx_class_list count_classes count_txs
new_tx_class_list-count h i [] k = refl
new_tx_class_list-count h i (tx ∷ txs) (r, k) =
    let (rs, e) = merge_access_list-some tx.access_list r in
    rw (e, Returns)
      (Returns-bind _ _ (new_tx_class_list (i + 1) txs) _ (new_tx_class_list-count h (i + 1) txs k)
        (λ rest c. omega arith))

-- The groups after the sort of each.
groups_count :
    (h : ℕ) (sort : List Transaction → List Transaction)
    → ((txs : List Transaction) → count_txs h (sort txs) ≡ count_txs h txs)
    → (groups : List (ℕ × List Transaction))
    → count_groups h (map (λ g. sort g.1) groups) ≡ count_entries h groups
unfolding count_groups count_entries
groups_count h sort kept [] = refl
groups_count h sort kept ((i, txs) ∷ groups) =
    let rest = groups_count h sort kept groups in let one = kept txs in omega arith

-- `ClassifyTx` loses no transaction and doubles none: with a sort that keeps the transactions, and on
-- transactions whose access lists are there and have their indices in range, it returns groups in which
-- each hash stands as often as among the transactions.
pub classify_tx-count :
    (sort : (Transaction → Transaction → Bool) → List Transaction → List Transaction)
    (sender : Transaction → ℕ) (h : ℕ) (txs : List Transaction)
    → ((less : Transaction → Transaction → Bool) (xs : List Transaction)
        → count_txs h (sort less xs) ≡ count_txs h xs)
    → All (λ tx. Readable tx.access_list) txs
    → Returns (λ groups. count_groups h groups ≡ count_txs h txs) (classify_tx sort sender txs)
unfolding classify_tx count_entries
classify_tx-count sort sender h txs kept r =
    Returns-bind _ _ (new_tx_class_list 0 txs) _ (new_tx_class_list-count h 0 txs r) (λ classes c.
      let merged = merge_classes-count h (length classes) classes in
      let grouped = group-count h (merge_classes (length classes) classes) [] in
      let all =
        groups_count h (sort (group_less sender)) (kept (group_less sender))
          (group (merge_classes (length classes) classes) []) in
      omega arith)

-- `ClassifyTx` separates transactions that conflict: if the first and the second of three have no
-- resource in common, and the third has some with each of them, the first is alone in its group, and
-- the third stands with the second only.
pub classify_tx-separated :
    (sort : (Transaction → Transaction → Bool) → List Transaction → List Transaction)
    (sender : Transaction → ℕ) (a b c : Transaction) (ra rb rc : List Resource)
    → (merge_access_list a.access_list ≡ some ra)
    → (merge_access_list b.access_list ≡ some rb)
    → (merge_access_list c.access_list ≡ some rc)
    → (is_conflict ra rb ≡ false)
    → (is_conflict ra rc ≡ true)
    → (is_conflict rb rc ≡ true)
    → classify_tx sort sender (a ∷ b ∷ c ∷ [])
      ≡ some (sort (group_less sender) (a ∷ []) ∷ sort (group_less sender) (b ∷ c ∷ []) ∷ [])
unfolding classify_tx new_tx_class_list merge_classes absorb group add_to_group
classify_tx-separated sort sender a b c ra rb rc ea eb ec apart first second =
    let joined : is_conflict rb (ra ++ rc) ≡ true = ground (arith, is_conflict-append rb ra rc) in
    rw (ea, eb, ec, apart, first, joined) refl
