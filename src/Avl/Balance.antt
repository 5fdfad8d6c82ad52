-- ===== src/Avl/Balance.antt =====
-- The balance of the tree: cached heights that are true, and siblings whose heights differ by one at
-- most. No operation dereferences nil on such a tree.
use pangu.Prelude.{
  ℕ, ◌+◌, ◌≤◌, max, ◌≡◌, refl, ◌⊎◌, true, false, inl, inr, arith, ltb, ltb→lt, le_of_ltb-false,
  ◌==◌, Bool-cases, Returns, Returns-imp, Returns-bind, Ordering-cases, Option, some,
}
use pangu.Prelude.Int.{ℤ}
use pangu.Avl.{
  Node, nil, node, get_height, rebalance_tree, refresh, add, find_smallest, remove_root, remove,
}

abbrev pub IsAvl : Node → Type 0
IsAvl nil = Unit
IsAvl (node k v s h l r) =
    (h ≡ 1 + max (get_height l) (get_height r))
    × (get_height l ≤ get_height r + 1)
    × (get_height r ≤ get_height l + 1)
    × IsAvl l
    × IsAvl r

-- What rebalancing makes of subtrees of heights `a` and `b`.
abbrev Rebalanced : ℕ → ℕ → Node → Type 0
Rebalanced a b t =
    IsAvl t
    × (max a b ≤ get_height t)
    × (get_height t ≤ 1 + max a b)
    × ((get_height t ≡ 1 + max a b) ⊎ (a + 2 ≤ b) ⊎ (b + 2 ≤ a))

rebalance_right :
    (k : ℕ) (v s : ℤ) (h : ℕ) (l r : Node)
    → IsAvl l
    → IsAvl r
    → get_height l + 2 ≡ get_height r
    → Returns (Rebalanced (get_height l) (get_height r)) (rebalance_tree (node k v s h l r))
unfolding rebalance_tree
rebalance_right k v s h l nil a b e = absurd (omega arith)
rebalance_right k v s h l (node rk rv rs rh nil rr) a b e = ground arith
rebalance_right k v s h l (node rk rv rs rh (node xk xv xs xh xl xr) rr) a b e =
    let t : (get_height l + 2 == rh) ≡ true = ground arith in
    elim (Bool-cases (ltb (get_height rr) xh)) [
      | inl d ↦
          let lower = ltb→lt (get_height rr) xh d in
          rw (t, d)
            (
              (
                refl,
                omega arith,
                omega arith,
                (refl, omega arith, omega arith, a, b.3.3),
                (refl, omega arith, omega arith, b.3.4, b.4),
              ),
              omega arith,
              omega arith,
              omega arith,
            )
      | inr d ↦
          let lower = le_of_ltb-false (get_height rr) xh d in
          rw (t, d)
            (
              (refl, omega arith, omega arith, (refl, omega arith, omega arith, a, b.3), b.4),
              omega arith,
              omega arith,
              omega arith,
            )
    ]

rebalance_left :
    (k : ℕ) (v s : ℤ) (h : ℕ) (l r : Node)
    → IsAvl l
    → IsAvl r
    → get_height l ≡ get_height r + 2
    → Returns (Rebalanced (get_height l) (get_height r)) (rebalance_tree (node k v s h l r))
unfolding rebalance_tree
rebalance_left k v s h nil r a b e = absurd (omega arith)
rebalance_left k v s h (node lk lv ls lh ll nil) r a b e = ground arith
rebalance_left k v s h (node lk lv ls lh ll (node xk xv xs xh xl xr)) r a b e =
    let f : (lh + 2 == get_height r) ≡ false = ground arith in
    let t : (lh == get_height r + 2) ≡ true = ground arith in
    elim (Bool-cases (ltb (get_height ll) xh)) [
      | inl d ↦
          let lower = ltb→lt (get_height ll) xh d in
          rw (f, t, d)
            (
              (
                refl,
                omega arith,
                omega arith,
                (refl, omega arith, omega arith, a.3, a.4.3),
                (refl, omega arith, omega arith, a.4.4, b),
              ),
              omega arith,
              omega arith,
              omega arith,
            )
      | inr d ↦
          let lower = le_of_ltb-false (get_height ll) xh d in
          rw (f, t, d)
            (
              (refl, omega arith, omega arith, a.3, (refl, omega arith, omega arith, a.4, b)),
              omega arith,
              omega arith,
              omega arith,
            )
    ]

rebalance_even :
    (k : ℕ) (v s : ℤ) (h : ℕ) (l r : Node)
    → IsAvl l
    → IsAvl r
    → get_height l ≤ get_height r + 1
    → get_height r ≤ get_height l + 1
    → Returns (Rebalanced (get_height l) (get_height r)) (rebalance_tree (node k v s h l r))
unfolding rebalance_tree
rebalance_even k v s h l r a b p q =
    let e : (get_height l + 2 == get_height r) ≡ false = ground arith in
    let f : (get_height l == get_height r + 2) ≡ false = ground arith in
    rw (e, f) ((refl, p, q, a, b), omega arith, omega arith, omega arith)

-- Subtrees whose heights differ by two at most become one balanced tree.
pub rebalance_tree-IsAvl :
    (k : ℕ) (v s : ℤ) (h : ℕ) (l r : Node)
    → IsAvl l
    → IsAvl r
    → get_height l ≤ get_height r + 2
    → get_height r ≤ get_height l + 2
    → Returns (Rebalanced (get_height l) (get_height r)) (rebalance_tree (node k v s h l r))
rebalance_tree-IsAvl k v s h l r a b p q = elim (Bool-cases (get_height l + 2 == get_height r)) [
  | inl e ↦ rebalance_right k v s h l r a b (ground arith)
  | inr e ↦ elim (Bool-cases (get_height l == get_height r + 2)) [
    | inl f ↦ rebalance_left k v s h l r a b (ground arith)
    | inr f ↦ rebalance_even k v s h l r a b (ground arith) (ground arith)
  ]
]

-- What a change of height by one at most, up or down, makes of a balanced tree of height `a`.
abbrev Grown : ℕ → Node → Type 0
Grown a t = IsAvl t × (a ≤ get_height t) × (get_height t ≤ a + 1)

abbrev Shrunk : ℕ → Node → Type 0
Shrunk a t = IsAvl t × (get_height t ≤ a) × (a ≤ get_height t + 1)

module _ (k : ℕ) (v s : ℤ) (h : ℕ) (l r : Node) (w : ℤ) (j : ℕ) where
  refresh-Grown_left :
      (l' : Node)
      → IsAvl (node k v s h l r)
      → Grown (get_height l) l'
      → Returns (Grown h) (refresh j w h l' r)
  unfolding refresh
  refresh-Grown_left l' a g =
      Returns-imp (Rebalanced (get_height l') (get_height r)) (Grown h) (refresh j w h l' r)
        (λ t b. (b.0, omega arith, omega arith))
        (rebalance_tree-IsAvl j w _ h l' r g.0 a.4 (omega arith) (omega arith))

  refresh-Grown_right :
      (r' : Node)
      → IsAvl (node k v s h l r)
      → Grown (get_height r) r'
      → Returns (Grown h) (refresh j w h l r')
  unfolding refresh
  refresh-Grown_right r' a g =
      Returns-imp (Rebalanced (get_height l) (get_height r')) (Grown h) (refresh j w h l r')
        (λ t b. (b.0, omega arith, omega arith))
        (rebalance_tree-IsAvl j w _ h l r' a.3 g.0 (omega arith) (omega arith))

  refresh-Shrunk_left :
      (l' : Node)
      → IsAvl (node k v s h l r)
      → Shrunk (get_height l) l'
      → Returns (Shrunk h) (refresh j w h l' r)
  unfolding refresh
  refresh-Shrunk_left l' a g =
      Returns-imp (Rebalanced (get_height l') (get_height r)) (Shrunk h) (refresh j w h l' r)
        (λ t b. (b.0, omega arith, omega arith))
        (rebalance_tree-IsAvl j w _ h l' r g.0 a.4 (omega arith) (omega arith))

  refresh-Shrunk_right :
      (r' : Node)
      → IsAvl (node k v s h l r)
      → Shrunk (get_height r) r'
      → Returns (Shrunk h) (refresh j w h l r')
  unfolding refresh
  refresh-Shrunk_right r' a g =
      Returns-imp (Rebalanced (get_height l) (get_height r')) (Shrunk h) (refresh j w h l r')
        (λ t b. (b.0, omega arith, omega arith))
        (rebalance_tree-IsAvl j w _ h l r' a.3 g.0 (omega arith) (omega arith))

add-Grown : (t : Node) (q : ℕ) (w : ℤ) → IsAvl t → Returns (Grown (get_height t)) (add t q w)
unfolding add get_height
add-Grown nil q w a = (omega arith, omega arith, omega arith)
add-Grown (node k v s h l r) q w a = elim (Ordering-cases q k) [
  | inl (e, _) ↦
      rw (e, Returns)
        (Returns-bind (Grown (get_height l)) (Grown h) (add l q w) _ (add-Grown l q w a.3)
          (λ l' g. refresh-Grown_left k v s h l r v k l' a g))
  | inr (inl (e, _)) ↦
      rw (e, Returns) (refresh-Grown_left k v s h l r w k l a (a.3, omega arith, omega arith))
  | inr (inr (e, _)) ↦
      rw (e, Returns)
        (Returns-bind (Grown (get_height r)) (Grown h) (add r q w) _ (add-Grown r q w a.4)
          (λ r' g. refresh-Grown_right k v s h l r v k r' a g))
]

refresh_even :
    (k : ℕ) (v s : ℤ) (h : ℕ) (l r : Node)
    → IsAvl (node k v s h l r)
    → Returns (λ t. IsAvl t × (get_height t ≡ h)) (refresh k v h l r)
unfolding refresh
refresh_even k v s h l r a =
    Returns-imp (Rebalanced (get_height l) (get_height r)) (λ t. IsAvl t × (get_height t ≡ h))
      (refresh k v h l r) (λ t b. (b.0, omega arith))
      (rebalance_tree-IsAvl k v _ h l r a.3 a.4 (omega arith) (omega arith))

-- The smallest node has no left child.
pub find_smallest-node :
    (k : ℕ) (v s : ℤ) (h : ℕ) (l r : Node)
    → (mk : ℕ) × (mv : ℤ) × (ms : ℤ) × (mh : ℕ) × (mr : Node) × (find_smallest (node k v s h l r)
        ≡ some (node mk mv ms mh nil mr))
unfolding find_smallest
find_smallest-node k v s h nil r = (k, v, s, h, r, refl)
find_smallest-node k v s h (node lk lv ls lh ll lr) r = find_smallest-node lk lv ls lh ll lr

remove_root-Shrunk :
    (k : ℕ) (v s : ℤ) (h : ℕ) (l r : Node) (without : ℕ → Option Node)
    → IsAvl (node k v s h l r)
    → ((m : ℕ) → Returns (Shrunk (get_height r)) (without m))
    → Returns (Shrunk h) (remove_root h l r without)
unfolding remove_root
remove_root-Shrunk k v s h nil nil f a c = ground arith
remove_root-Shrunk k v s h (node lk lv ls lh ll lr) nil f a c =
    Returns-imp (λ t. IsAvl t × (get_height t ≡ lh)) (Shrunk h) (refresh lk lv lh ll lr)
      (λ t b. (b.0, omega arith, omega arith)) (refresh_even lk lv ls lh ll lr a.3)
remove_root-Shrunk k v s h nil (node rk rv rs rh rl rr) f a c =
    Returns-imp (λ t. IsAvl t × (get_height t ≡ rh)) (Shrunk h) (refresh rk rv rh rl rr)
      (λ t b. (b.0, omega arith, omega arith)) (refresh_even rk rv rs rh rl rr a.4)
remove_root-Shrunk k v s h (node lk lv ls lh ll lr) (node rk rv rs rh rl rr) f a c =
    let (mk, mv, ms, mh, mr, e) = find_smallest-node rk rv rs rh rl rr in
    rw (e, Returns)
      (Returns-bind (Shrunk rh) (Shrunk h) (f mk) _ (c mk) (λ r' g.
        refresh-Shrunk_right k v s h (node lk lv ls lh ll lr) (node rk rv rs rh rl rr) mv mk r' a
          g))

remove-Shrunk : (t : Node) (q : ℕ) → IsAvl t → Returns (Shrunk (get_height t)) (remove t q)
unfolding remove get_height
remove-Shrunk nil q a = (tt, omega arith, omega arith)
remove-Shrunk (node k v s h l r) q a = elim (Ordering-cases q k) [
  | inl (e, _) ↦
      rw (e, Returns)
        (Returns-bind (Shrunk (get_height l)) (Shrunk h) (remove l q) _ (remove-Shrunk l q a.3)
          (λ l' g. refresh-Shrunk_left k v s h l r v k l' a g))
  | inr (inl (e, _)) ↦
      rw (e, Returns) (remove_root-Shrunk k v s h l r (remove r) a (λ m. remove-Shrunk r m a.4))
  | inr (inr (e, _)) ↦
      rw (e, Returns)
        (Returns-bind (Shrunk (get_height r)) (Shrunk h) (remove r q) _ (remove-Shrunk r q a.4)
          (λ r' g. refresh-Shrunk_right k v s h l r v k r' a g))
]

pub add-IsAvl : (t : Node) (q : ℕ) (w : ℤ) → IsAvl t → Returns IsAvl (add t q w)
add-IsAvl t q w a =
    Returns-imp (Grown (get_height t)) IsAvl (add t q w) (λ u g. g.0) (add-Grown t q w a)

pub remove-IsAvl : (t : Node) (q : ℕ) → IsAvl t → Returns IsAvl (remove t q)
remove-IsAvl t q a =
    Returns-imp (Shrunk (get_height t)) IsAvl (remove t q) (λ u g. g.0) (remove-Shrunk t q a)
