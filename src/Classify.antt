-- ===== src/Classify.antt =====
-- core/txclassfy.go: the resources of a transaction, the classes of transactions that share some, and
-- the choice of transactions by price. A set is a list, a Go map is the list of its entries in the order
-- of a loop, which is any order.
pub mod Resources
pub mod Groups
pub mod Kind
pub mod Select
use pangu.Prelude.{
  ℕ, ◌+◌, zero, suc, Bool, true, false, Option, none, some, List, [], ◌∷◌, ◌++◌, ◌>>=◌, ◌==◌, ◌&&◌,
  ◌||◌, ltb, if◌then◌else◌, get_elem?, lookup, insert, length, map,
}
use pangu.AccessList.{AccessList, Index, no_slots, at}
use pangu.Message.{Transaction}

-- The strings of the set: the hex form of an address, alone or with that of a storage key.
pub data Resource : Type 0 where
  address : ℕ → Resource
  storage : ℕ → ℕ → Resource

unfoldable pub same_resource : Resource → Resource → Bool
same_resource (address a) (address b) = a == b
same_resource (address a) (storage b s) = false
same_resource (storage a s) (address b) = false
same_resource (storage a s) (storage b t) = a == b && s == t

unfoldable pub has : List Resource → Resource → Bool
unfolding same_resource
has [] r = false
has (x ∷ xs) r = same_resource x r || has xs r

-- The keys of one slot map. A slot map that is out of range is a panic.
unfoldable pub storage_of : ℕ → List ℕ → List Resource
storage_of a [] = []
storage_of a (s ∷ slots) = storage a s ∷ storage_of a slots

-- The part of one entry of `Addresses`; `num > 0`.
unfoldable pub entry_resources : List (List ℕ) → ℕ → Index → Option (List Resource)
unfolding storage_of
entry_resources slots a no_slots = some (address a ∷ [])
entry_resources slots a (at zero) = some (address a ∷ [])
entry_resources slots a (at (suc i)) = elim (get_elem? slots (suc i)) [
  | none ↦ none
  | some m ↦ some (storage_of a m)
]

unfoldable pub merge_entries : List (List ℕ) → List (ℕ × Index) → Option (List Resource)
unfolding entry_resources
merge_entries slots [] = some []
merge_entries slots ((a, num) ∷ entries) =
    entry_resources slots a num >>= λ rs. merge_entries slots entries >>= λ rest. some (rs ++ rest)

-- `MergeAccessList`; a nil access list is a nil dereference.
unfoldable pub merge_access_list : Option AccessList → Option (List Resource)
unfolding merge_entries
merge_access_list none = none
merge_access_list (some al) = merge_entries al.slots al.addresses

-- `IsConflict`
unfoldable pub is_conflict : List Resource → List Resource → Bool
unfolding has
is_conflict [] ys = false
is_conflict (x ∷ xs) ys = has ys x || is_conflict xs ys

pub record TxClass : Type 0 where
  pub tx : Transaction
  pub id : ℕ
  pub tx_resource : List Resource

-- `NewTxClassList`, from an index on.
unfoldable pub new_tx_class_list : ℕ → List Transaction → Option (List TxClass)
unfolding merge_access_list
new_tx_class_list i [] = some []
new_tx_class_list i (tx ∷ txs) = merge_access_list tx.access_list >>= λ rs.
    new_tx_class_list (i + 1) txs >>= λ rest.
    some (record { tx = tx; id = i; tx_resource = rs } ∷ rest)

-- The inner loop of `ClassifyTx`, on one class and those after it.
unfoldable pub absorb : TxClass → List TxClass → TxClass × List TxClass
unfolding is_conflict
absorb x [] = (x, [])
absorb x (y ∷ ys) =
    let union = x.tx_resource ++ y.tx_resource in
    let kept = absorb x ys in
    let joined = absorb (record x { tx_resource = union }) ys in
    if is_conflict x.tx_resource y.tx_resource
    then (joined.0, record y { id = x.id; tx_resource = union } ∷ joined.1)
    else (kept.0, y ∷ kept.1)

-- The outer loop; the fuel is the count of the classes, of which each turn takes one.
unfoldable pub merge_classes : ℕ → List TxClass → List TxClass
unfolding absorb
merge_classes zero xs = xs
merge_classes (suc n) [] = []
merge_classes (suc n) (x ∷ xs) = (absorb x xs).0 ∷ merge_classes n (absorb x xs).1

-- `groups[id] = append(groups[id], tx)`
unfoldable pub add_to_group :
    ℕ → Transaction → List (ℕ × List Transaction) → List (ℕ × List Transaction)
add_to_group i tx [] = (i, tx ∷ []) ∷ []
add_to_group i tx ((j, txs) ∷ groups) =
    if j == i then (j, txs ++ (tx ∷ [])) ∷ groups else (j, txs) ∷ add_to_group i tx groups

unfoldable pub group : List TxClass → List (ℕ × List Transaction) → List (ℕ × List Transaction)
unfolding add_to_group
group [] groups = groups
group (x ∷ xs) groups = group xs (add_to_group x.id x.tx groups)

-- `less` of the sort of one group: the sender's address, then the nonce.
unfoldable pub group_less : (Transaction → ℕ) → Transaction → Transaction → Bool
group_less sender a b =
    if ltb (sender a) (sender b)
    then true
    else if ltb (sender b) (sender a)
    then false
    else ltb a.nonce b.nonce

-- `ClassifyTx`; the sort of the standard library is a parameter, which is given `less`.
unfoldable pub classify_tx :
    ((Transaction → Transaction → Bool) → List Transaction → List Transaction)
    → (Transaction → ℕ)
    → List Transaction
    → Option (List (List Transaction))
unfolding new_tx_class_list merge_classes group
classify_tx sort sender txs = new_tx_class_list 0 txs >>= λ classes.
    some
      (map (λ g. sort (group_less sender) g.1) (group (merge_classes (length classes) classes) []))

-- `FindMaxGasPrice`, from the address and the price found so far; an address without transactions is a
-- panic. `GasPrice` of a transaction is its fee cap.
unfoldable pub find_max_gas_price : List (ℕ × List Transaction) → ℕ → ℕ → Option ℕ
find_max_gas_price [] addr price = some addr
find_max_gas_price ((a, []) ∷ rest) addr price = none
find_max_gas_price ((a, tx ∷ txs) ∷ rest) addr price =
    let better = find_max_gas_price rest a tx.fee_cap in
    let same = find_max_gas_price rest addr price in if ltb price tx.fee_cap then better else same

-- How far the loop of `SelectTxs` is: it goes on, it has panicked, or it has returned.
pub data Progress : Type 0 where
  running : Progress
  panicked : Progress
  returned : List Transaction → Progress

-- The loop of `SelectTxs` on its sum and its selection, for a number of turns. `sum` never changes.
unfoldable pub select_loop : ℕ → ℕ → ℕ → List Transaction → List (ℕ × List Transaction) → Progress
unfolding find_max_gas_price lookup insert
select_loop zero gas_limit sum selected temp = running
select_loop (suc n) gas_limit sum selected temp =
    if ltb gas_limit sum then returned selected else elim (find_max_gas_price temp 0 0) [
      | none ↦ panicked
      | some addr ↦ elim (lookup addr temp) [
        | none ↦ panicked
        | some [] ↦ panicked
        | some (tx ∷ txs) ↦
            select_loop n gas_limit sum (selected ++ (tx ∷ [])) (insert addr txs temp)
      ]
    ]

-- `SelectTxs`, for a number of turns.
unfoldable pub select_txs : ℕ → List (ℕ × List Transaction) → ℕ → Progress
unfolding select_loop
select_txs turns tx_map gas_limit = select_loop turns gas_limit 0 [] tx_map
