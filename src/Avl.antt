-- ===== src/Avl.antt =====
-- core/txpool/legacypool/avl.go: the tree of nonces with the sums of their costs.
-- A node is a value: the Go methods change nodes in place and hand the changed subtree back, and no
-- two trees share a node. A nil dereference is `none`. Costs are `*big.Int`, so they are integers;
-- heights are counts of nodes and never negative. Children: `Balance` (the invariant), `Entries`
-- (what the operations do to the sorted list of entries), `Update` (adding and removing), `Valid` (all together), `Reads` (the reading methods).
pub mod Entries
pub mod Balance
pub mod Update
pub mod Valid
pub mod Reads
use pangu.Prelude.{
  ℕ, suc, ◌+◌, max, compare, Ordering, Bool, true, false, Option, none, some, List, [], ◌∷◌, ◌++◌,
  ◌>>=◌, ltb, ◌==◌, if◌then◌else◌,
}
use pangu.Prelude.Int.{ℤ, pos, ◌+ℤ◌, ◌-ℤ◌}

-- `*AVLNode`; the fields stand in the order of the struct.
pub data Node : Type 0 where
  nil : Node
  node : (key : ℕ) (value sum : ℤ) (height : ℕ) (left right : Node) → Node

unfoldable pub get_height : Node → ℕ
get_height nil = 0
get_height (node _ _ _ h _ _) = h

-- `n.recalculateHeight()`, on the other fields of the node.
unfoldable pub recalculate_height : ℕ → ℤ → ℤ → Node → Node → Node
unfolding get_height
recalculate_height k v s l r = node k v s (1 + max (get_height l) (get_height r)) l r

-- `if c != nil { s.Add(s, c.sum) }` and `if c != nil { s.Sub(s, c.sum) }`
unfoldable pub plus_sum : ℤ → Node → ℤ
plus_sum a nil = a
plus_sum a (node _ _ s _ _ _) = a +ℤ s

unfoldable pub minus_sum : ℤ → Node → ℤ
minus_sum a nil = a
minus_sum a (node _ _ s _ _ _) = a -ℤ s

-- `n.rotateLeft()`: `newRoot := n.right` is dereferenced.
unfoldable pub rotate_left : ℕ → ℤ → ℤ → Node → Node → Option Node
unfolding recalculate_height plus_sum minus_sum
rotate_left k v s l nil = none
rotate_left k v s l (node rk rv rs rh rl rr) = some (
    recalculate_height rk rv s
      (recalculate_height k v (plus_sum (minus_sum s (node rk rv rs rh rl rr)) rl) l rl) rr)

unfoldable pub rotate_right : ℕ → ℤ → ℤ → Node → Node → Option Node
unfolding recalculate_height plus_sum minus_sum
rotate_right k v s nil r = none
rotate_right k v s (node lk lv ls lh ll lr) r = some (
    recalculate_height lk lv s ll
      (recalculate_height k v (plus_sum (minus_sum s (node lk lv ls lh ll lr)) lr) lr r))

-- `if n.right.left.getHeight() > n.right.right.getHeight() { n.right = n.right.rotateRight() }`
unfoldable pub straighten_right : Node → Option Node
unfolding get_height rotate_right
straighten_right nil = none
straighten_right (node k v s h l r) =
    if ltb (get_height r) (get_height l) then rotate_right k v s l r else some (node k v s h l r)

unfoldable pub straighten_left : Node → Option Node
unfolding get_height rotate_left
straighten_left nil = none
straighten_left (node k v s h l r) =
    if ltb (get_height l) (get_height r) then rotate_left k v s l r else some (node k v s h l r)

-- The balance factor is -2 where the right subtree is higher by two, and 2 where the left one is.
unfoldable pub rebalance_tree : Node → Option Node
unfolding get_height recalculate_height straighten_left straighten_right rotate_left rotate_right
rebalance_tree nil = some nil
rebalance_tree (node k v s _ l r) =
    if get_height l + 2 == get_height r
    then straighten_right r >>= (λ r'. rotate_left k v s l r')
    else if get_height l == get_height r + 2
    then straighten_left l >>= (λ l'. rotate_right k v s l' r)
    else some (recalculate_height k v s l r)

-- The common end of `add` and `remove`: the sum anew, then `return n.rebalanceTree()`.
unfoldable pub refresh : ℕ → ℤ → ℕ → Node → Node → Option Node
unfolding plus_sum rebalance_tree
refresh k v h l r = rebalance_tree (node k v (plus_sum (plus_sum v l) r) h l r)

unfoldable pub add : Node → ℕ → ℤ → Option Node
unfolding refresh
add nil q w = some (node q w w 1 nil nil)
add (node k v s h l r) q w = elim (compare q k) [
  | Ordering.lt ↦ do l' ← add l q w; refresh k v h l' r
  | Ordering.gt ↦ do r' ← add r q w; refresh k v h l r'
  | Ordering.eq ↦ refresh k w h l r
]

unfoldable pub find_smallest : Node → Option Node
find_smallest nil = none
find_smallest (node k v s h nil r) = some (node k v s h nil r)
find_smallest (node k v s h (node lk lv ls lh ll lr) r) = find_smallest (node lk lv ls lh ll lr)

unfoldable pub find_largest : Node → Option Node
find_largest nil = none
find_largest (node k v s h l nil) = some (node k v s h l nil)
find_largest (node k v s h l (node rk rv rs rh rl rr)) = find_largest (node rk rv rs rh rl rr)

-- The node found holds the key: `without` is `n.right.remove`, for the case of two children.
-- With one child `n` becomes that child, whose own sum is computed anew.
unfoldable pub remove_root : ℕ → Node → Node → (ℕ → Option Node) → Option Node
unfolding refresh find_smallest
remove_root h nil nil without = some nil
remove_root h (node k v s lh l r) nil without = refresh k v lh l r
remove_root h nil (node k v s rh l r) without = refresh k v rh l r
remove_root h (node lk lv ls lh ll lr) (node rk rv rs rh rl rr) without =
    find_smallest (node rk rv rs rh rl rr) >>= λ m. elim m [
      | nil ↦ none
      | node mk mv _ _ _ _ ↦ do r' ← without mk; refresh mk mv h (node lk lv ls lh ll lr) r'
    ]

unfoldable pub remove : Node → ℕ → Option Node
unfolding refresh remove_root
remove nil q = some nil
remove (node k v s h l r) q = elim (compare q k) [
  | Ordering.lt ↦ do l' ← remove l q; refresh k v h l' r
  | Ordering.gt ↦ do r' ← remove r q; refresh k v h l r'
  | Ordering.eq ↦ remove_root h l r (remove r)
]

-- The node, or nil, and the sum of the costs up to the key.
unfoldable pub search : Node → ℕ → Node × ℤ
unfolding plus_sum
search nil q = (nil, pos 0)
search (node k v s h l r) q = elim (compare q k) [
  | Ordering.lt ↦ search l q
  | Ordering.gt ↦ let (found, sum) = search r q in (found, plus_sum sum l +ℤ v)
  | Ordering.eq ↦ (node k v s h l r, plus_sum v l)
]

-- `displayNodesInOrder`, whose callers pass no nil node, with the nodes seen before.
unfoldable pub display_nodes_in_order : Node → List Node → List Node
display_nodes_in_order nil nodes = nodes
display_nodes_in_order (node k v s h l r) nodes =
    display_nodes_in_order r (display_nodes_in_order l nodes ++ (node k v s h l r ∷ []))

-- The methods of `AVLTree`, on its root: `Update`, and `Smallest` and `Largest`, where `none` is
-- `ErrEmptyTree`, and `Flatten`.
unfoldable pub update : Node → ℕ → ℕ → ℤ → Option Node
unfolding remove add
update t old_key new_key new_value = do t' ← remove t old_key; add t' new_key new_value

key_of : Node → Option ℕ
key_of nil = none
key_of (node k _ _ _ _ _) = some k

unfoldable pub smallest : Node → Option ℕ
unfolding find_smallest key_of
smallest t = find_smallest t >>= key_of

unfoldable pub largest : Node → Option ℕ
unfolding find_largest key_of
largest t = find_largest t >>= key_of

unfoldable pub flatten : Node → List Node
unfolding display_nodes_in_order
flatten t = display_nodes_in_order t []
