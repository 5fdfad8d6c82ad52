-- ===== src/Avl/Entries.antt =====
-- The entries of a tree in order, the sums of their costs, and what rotating and rebalancing make of
-- them: nothing, whatever the shape of the tree.
use pangu.Prelude.{
  ℕ, ◌+◌, ◌≡◌, refl, sym, ap, ◌∙◌, List, [], ◌∷◌, ◌++◌, append_assoc, ltb, ◌==◌, Ensures,
  Ensures-if, Ensures-bind, Ensures-imp,
}
use pangu.Prelude.Int.{ℤ, pos, ◌+ℤ◌, int_laws}
use pangu.Avl.{
  Node, nil, node, get_height, plus_sum, rotate_left, rotate_right, straighten_left,
  straighten_right, rebalance_tree, refresh,
}

abbrev pub entries : Node → List (ℕ × ℤ)
entries nil = []
entries (node k v s h l r) = entries l ++ ((k, v) ∷ entries r)

abbrev pub sum_values : List (ℕ × ℤ) → ℤ
sum_values [] = pos 0
sum_values ((k, v) ∷ m) = v +ℤ sum_values m

abbrev pub total : Node → ℤ
total nil = pos 0
total (node k v s h l r) = v +ℤ total l +ℤ total r

pub sum_values-append :
    (xs ys : List (ℕ × ℤ)) → sum_values (xs ++ ys) ≡ sum_values xs +ℤ sum_values ys
sum_values-append [] ys = omega int_laws
sum_values-append ((k, v) ∷ xs) ys = rw (sum_values-append xs ys) (omega int_laws)

pub total-entries : (t : Node) → sum_values (entries t) ≡ total t
total-entries nil = refl
total-entries (node k v s h l r) =
    rw (sum_values-append (entries l) ((k, v) ∷ entries r), total-entries l, total-entries r)
      (omega int_laws)

-- Every cached sum is the sum of the costs in its subtree.
abbrev pub HasSums : Node → Type 0
HasSums nil = Unit
HasSums (node k v s h l r) = (s ≡ v +ℤ total l +ℤ total r) × HasSums l × HasSums r

abbrev pub Rebuilt : ℕ → ℤ → Node → Node → Node → Type 0
Rebuilt k v l r t =
    (entries t ≡ entries l ++ ((k, v) ∷ entries r))
    × HasSums t
    × (total t ≡ v +ℤ total l +ℤ total r)

plus_sum-total : (a : ℤ) (t : Node) → HasSums t → plus_sum a t ≡ a +ℤ total t
unfolding plus_sum
plus_sum-total a nil h = omega int_laws
plus_sum-total a (node k v s _ l r) h = ap (◌+ℤ◌ a) h.0

rotate_left-Rebuilt :
    (k : ℕ) (v s : ℤ) (l r : Node)
    → s ≡ v +ℤ total l +ℤ total r
    → HasSums l
    → HasSums r
    → Ensures (Rebuilt k v l r) (rotate_left k v s l r)
unfolding rotate_left
rotate_left-Rebuilt k v s l nil e a b = tt
rotate_left-Rebuilt k v s l (node rk rv rs rh rl rr) e a b = (
  append_assoc (entries l) ((k, v) ∷ entries rl) ((rk, rv) ∷ entries rr),
  (e ∙ omega int_laws, (plus_sum-total _ rl b.1 ∙ (rw (e, b.0) (omega int_laws)), a, b.1), b.2),
  omega int_laws,
)

rotate_right-Rebuilt :
    (k : ℕ) (v s : ℤ) (l r : Node)
    → s ≡ v +ℤ total l +ℤ total r
    → HasSums l
    → HasSums r
    → Ensures (Rebuilt k v l r) (rotate_right k v s l r)
unfolding rotate_right
rotate_right-Rebuilt k v s nil r e a b = tt
rotate_right-Rebuilt k v s (node lk lv ls lh ll lr) r e a b = (
  sym (append_assoc (entries ll) ((lk, lv) ∷ entries lr) ((k, v) ∷ entries r)),
  (e ∙ omega int_laws, a.1, (plus_sum-total _ lr a.2 ∙ (rw (e, a.0) (omega int_laws)), a.2, b)),
  omega int_laws,
)

-- The same tree with one child rebuilt.
abbrev Same : Node → Node → Type 0
Same t u = (entries u ≡ entries t) × HasSums u × (total u ≡ total t)

straighten_right-Same : (r : Node) → HasSums r → Ensures (Same r) (straighten_right r)
unfolding straighten_right
straighten_right-Same nil a = tt
straighten_right-Same (node k v s h l r) a =
    Ensures-if (Same (node k v s h l r)) (ltb (get_height r) (get_height l)) _ _
      (rotate_right-Rebuilt k v s l r a.0 a.1 a.2) (refl, a, refl)

straighten_left-Same : (l : Node) → HasSums l → Ensures (Same l) (straighten_left l)
unfolding straighten_left
straighten_left-Same nil a = tt
straighten_left-Same (node k v s h l r) a =
    Ensures-if (Same (node k v s h l r)) (ltb (get_height l) (get_height r)) _ _
      (rotate_left-Rebuilt k v s l r a.0 a.1 a.2) (refl, a, refl)

rebalance_tree-Rebuilt :
    (k : ℕ) (v s : ℤ) (h : ℕ) (l r : Node)
    → s ≡ v +ℤ total l +ℤ total r
    → HasSums l
    → HasSums r
    → Ensures (Rebuilt k v l r) (rebalance_tree (node k v s h l r))
unfolding rebalance_tree
rebalance_tree-Rebuilt k v s h l r e a b =
    Ensures-if (Rebuilt k v l r) (get_height l + 2 == get_height r) _ _
      (Ensures-bind (Same r) (Rebuilt k v l r) (straighten_right r) _ (straighten_right-Same r b)
        (λ r' c.
          Ensures-imp (Rebuilt k v l r') (Rebuilt k v l r) (rotate_left k v s l r')
            (λ u d. (d.0 ∙ rw c.0, d.1, d.2 ∙ rw c.2))
            (rotate_left-Rebuilt k v s l r' (e ∙ rw c.2) a c.1)))
      (Ensures-if (Rebuilt k v l r) (get_height l == get_height r + 2) _ _
        (Ensures-bind (Same l) (Rebuilt k v l r) (straighten_left l) _ (straighten_left-Same l a)
          (λ l' c.
            Ensures-imp (Rebuilt k v l' r) (Rebuilt k v l r) (rotate_right k v s l' r)
              (λ u d. (d.0 ∙ rw c.0, d.1, d.2 ∙ rw c.2))
              (rotate_right-Rebuilt k v s l' r (e ∙ rw c.2) c.1 b)))
        (refl, (e, a, b), refl))

pub refresh-Rebuilt :
    (k : ℕ) (v : ℤ) (h : ℕ) (l r : Node)
    → HasSums l
    → HasSums r
    → Ensures (Rebuilt k v l r) (refresh k v h l r)
unfolding refresh
refresh-Rebuilt k v h l r a b =
    rebalance_tree-Rebuilt k v _ h l r (plus_sum-total _ r b ∙ rw (plus_sum-total v l a)) a b
