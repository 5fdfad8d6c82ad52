-- ===== src/Avl/Reads.antt =====
-- What the reading methods of the tree return: the prefix sum, the ends and the nodes in order.
use pangu.Prelude.{
  ℕ, ◌+◌, ◌<◌, ◌≡◌, refl, sym, ap, ◌∙◌, List, [], ◌∷◌, ◌++◌, map, append_assoc, append-nil,
  map-append, arith, leb, if◌then◌else◌, inl, inr, Option, none, some, All, All-imp, lookup,
  Ordering-cases, Bool-cases, true, false, ◌≢◌,
}
use pangu.Prelude.Int.{ℤ, pos, ◌+ℤ◌, int_laws}
use pangu.Avl.{
  Node, nil, node, plus_sum, search, smallest, largest, display_nodes_in_order, flatten,
}
use pangu.Avl.Entries.{entries, sum_values, HasSums, total-entries}
use pangu.Avl.Update.{IsSorted, IsSorted-split}

-- The sum of the costs of the entries up to a key.
unfoldable pub sum_upto : ℕ → List (ℕ × ℤ) → ℤ
sum_upto q [] = pos 0
sum_upto q ((k, v) ∷ m) = if leb k q then v +ℤ sum_upto q m else sum_upto q m

sum_upto-append :
    (q : ℕ) (xs ys : List (ℕ × ℤ)) → sum_upto q (xs ++ ys) ≡ sum_upto q xs +ℤ sum_upto q ys
unfolding sum_upto
sum_upto-append q [] ys = omega int_laws
sum_upto-append q ((k, v) ∷ xs) ys = elim (Bool-cases (leb k q)) [
  | inl e ↦ rw (e, sum_upto-append q xs ys) (omega int_laws)
  | inr e ↦ rw (e, sum_upto-append q xs ys)
]

sum_upto_below : (q : ℕ) (m : List (ℕ × ℤ)) → All (λ e. e.0 < q) m → sum_upto q m ≡ sum_values m
unfolding sum_upto
sum_upto_below q [] a = refl
sum_upto_below q ((k, v) ∷ m) a =
    let e : leb k q ≡ true = ground arith in rw (e, sum_upto_below q m a.1)

sum_upto_above : (q : ℕ) (m : List (ℕ × ℤ)) → All (λ e. q < e.0) m → sum_upto q m ≡ pos 0
unfolding sum_upto
sum_upto_above q [] a = refl
sum_upto_above q ((k, v) ∷ m) a =
    let e : leb k q ≡ false = ground arith in rw e (sum_upto_above q m a.1)

abbrev pub value_of : Node → Option ℤ
value_of nil = none
value_of (node k v s h l r) = some v

lookup_absent : (q : ℕ) (m : List (ℕ × ℤ)) → All (λ e. e.0 ≢ q) m → lookup q m ≡ none
unfolding lookup
lookup_absent q [] a = refl
lookup_absent q ((k, v) ∷ m) a = ground (arith, lookup_absent q m a.1)

lookup-append :
    (q : ℕ) (xs ys : List (ℕ × ℤ)) → lookup q xs ≡ none → lookup q (xs ++ ys) ≡ lookup q ys
unfolding lookup
lookup-append q [] ys h = refl
lookup-append q ((k, v) ∷ xs) ys h = ground (arith, lookup-append q xs ys)

lookup-append_left :
    (q : ℕ) (xs ys : List (ℕ × ℤ)) → lookup q ys ≡ none → lookup q (xs ++ ys) ≡ lookup q xs
unfolding lookup
lookup-append_left q [] ys h = h
lookup-append_left q ((k, v) ∷ xs) ys h = ground (arith, lookup-append_left q xs ys)

module _ (q : ℕ) (xs : List (ℕ × ℤ)) (k : ℕ) (v : ℤ) (ys : List (ℕ × ℤ)) where
  lookup_left : q < k → All (λ e. k < e.0) ys → lookup q (xs ++ ((k, v) ∷ ys)) ≡ lookup q xs
  lookup_left p a =
      lookup-append_left q xs ((k, v) ∷ ys)
        (lookup_absent q ((k, v) ∷ ys) (omega arith, All-imp _ _ (λ e c. omega arith) ys a))

  lookup_right : k < q → All (λ e. e.0 < k) xs → lookup q (xs ++ ((k, v) ∷ ys)) ≡ lookup q ys
  unfolding lookup
  lookup_right p a =
      lookup-append q xs ((k, v) ∷ ys) (lookup_absent q xs (All-imp _ _ (λ e c. omega arith) xs a))
      ∙ ground arith

  lookup_here : q ≡ k → All (λ e. e.0 < k) xs → lookup q (xs ++ ((k, v) ∷ ys)) ≡ some v
  unfolding lookup
  lookup_here p a =
      lookup-append q xs ((k, v) ∷ ys) (lookup_absent q xs (All-imp _ _ (λ e c. omega arith) xs a))
      ∙ ground arith

  sum_left : q < k → All (λ e. k < e.0) ys → sum_upto q (xs ++ ((k, v) ∷ ys)) ≡ sum_upto q xs
  sum_left p a =
      sum_upto-append q xs ((k, v) ∷ ys)
      ∙ rw (sum_upto_above q ((k, v) ∷ ys) (p, All-imp _ _ (λ e c. omega arith) ys a))
          (omega int_laws)

  sum_right :
      k < q + 1
      → All (λ e. e.0 < k) xs
      → sum_upto q (xs ++ ((k, v) ∷ ys)) ≡ sum_upto q ys +ℤ sum_values xs +ℤ v
  unfolding sum_upto
  sum_right p a =
      let e : leb k q ≡ true = ground arith in
      sum_upto-append q xs ((k, v) ∷ ys)
      ∙ rw (e, sum_upto_below q xs (All-imp _ _ (λ e c. omega arith) xs a)) (omega int_laws)

plus_sum-entries : (a : ℤ) (t : Node) → HasSums t → plus_sum a t ≡ a +ℤ sum_values (entries t)
unfolding plus_sum
plus_sum-entries a nil h = omega int_laws
plus_sum-entries a (node k v s x l r) h = rw (total-entries (node k v s x l r)) (ap (◌+ℤ◌ a) h.0)

-- Over a tree in the order of its keys, with true sums, `Search` finds the node that holds the key,
-- or nil where no entry has it, and returns the sum of the costs of all entries up to the key.
pub search_lem :
    (t : Node) (q : ℕ)
    → HasSums t
    → IsSorted (entries t)
    → (value_of (search t q).0 ≡ lookup q (entries t)) × ((search t q).1 ≡ sum_upto q (entries t))
unfolding search lookup sum_upto
search_lem nil q a s = (refl, refl)
search_lem (node k v x h l r) q a s =
    let (below, sl, above, sr) = IsSorted-split (entries l) k v (entries r) s in
    elim (Ordering-cases q k) [
      | inl (e, p) ↦
          let step : search (node k v x h l r) q ≡ search l q = rw (e, search) in
          let (found, sum) = search_lem l q a.1 sl in
          rw step (
            found ∙ sym (lookup_left q (entries l) k v (entries r) p above),
            sum ∙ sym (sum_left q (entries l) k v (entries r) p above),
          )
      | inr (inl (e, p)) ↦
          let step : search (node k v x h l r) q ≡ (node k v x h l r, plus_sum v l) =
            rw (e, search) in
          rw step (
            sym (lookup_here q (entries l) k v (entries r) p below),
            plus_sum-entries v l a.1
                ∙ sym (
                    sum_right q (entries l) k v (entries r) (omega arith) below
                    ∙ rw (sum_upto_above q (entries r) (All-imp _ _ (λ f c. omega arith) _ above))
                        (omega int_laws)),
          )
      | inr (inr (e, p)) ↦
          let step : search (node k v x h l r) q
              ≡ ((search r q).0, plus_sum (search r q).1 l +ℤ v) =
            rw (e, search) in
          let (found, sum) = search_lem r q a.2 sr in
          rw step (
            found ∙ sym (lookup_right q (entries l) k v (entries r) p below),
            rw (plus_sum-entries _ l a.1, sum)
                (sym (sum_right q (entries l) k v (entries r) (omega arith) below)),
          )
    ]

-- The first and the last key of a list.
abbrev pub first_key : List (ℕ × ℤ) → Option ℕ
first_key [] = none
first_key ((k, v) ∷ m) = some k

abbrev pub last_key : List (ℕ × ℤ) → Option ℕ
last_key [] = none
last_key ((k, v) ∷ []) = some k
last_key (e ∷ f ∷ m) = last_key (f ∷ m)

first_key-append :
    (xs : List (ℕ × ℤ)) (e : ℕ × ℤ) (ys zs : List (ℕ × ℤ))
    → first_key (xs ++ (e ∷ ys) ++ zs) ≡ first_key (xs ++ (e ∷ ys))
first_key-append [] e ys zs = refl
first_key-append (x ∷ xs) e ys zs = refl

last_key-append :
    (xs : List (ℕ × ℤ)) (e : ℕ × ℤ) (ys : List (ℕ × ℤ))
    → last_key (xs ++ (e ∷ ys)) ≡ last_key (e ∷ ys)
last_key-append [] e ys = refl
last_key-append (x ∷ []) e ys = refl
last_key-append (x ∷ y ∷ xs) e ys = last_key-append (y ∷ xs) e ys

smallest-first : (t : Node) → smallest t ≡ first_key (entries t)
unfolding smallest
smallest-first nil = refl
smallest-first (node k v s h nil r) = refl
smallest-first (node k v s h (node lk lv ls lh ll lr) r) =
    smallest-first (node lk lv ls lh ll lr)
    ∙ sym (first_key-append (entries ll) (lk, lv) (entries lr) ((k, v) ∷ entries r))

largest-last : (t : Node) → largest t ≡ last_key (entries t)
unfolding largest
largest-last nil = refl
largest-last (node k v s h l nil) = sym (last_key-append (entries l) (k, v) [])
largest-last (node k v s h l (node rk rv rs rh rl rr)) =
    largest-last (node rk rv rs rh rl rr)
    ∙ last_key-append (entries rl) (rk, rv) (entries rr)
    ∙ sym (last_key-append ((k, v) ∷ entries rl) (rk, rv) (entries rr))
    ∙ sym (last_key-append (entries l) (k, v) (entries (node rk rv rs rh rl rr)))

-- `Smallest` and `Largest` return the first and the last key of the tree's entries, and
-- `ErrEmptyTree` for the empty tree.
pub smallest-largest :
    (t : Node) → (smallest t ≡ first_key (entries t)) × (largest t ≡ last_key (entries t))
smallest-largest t = (smallest-first t, largest-last t)

abbrev pub pair_of : Node → ℕ × ℤ
pair_of nil = (0, pos 0)
pair_of (node k v s h l r) = (k, v)

display-entries :
    (t : Node) (nodes : List Node)
    → map pair_of (display_nodes_in_order t nodes) ≡ map pair_of nodes ++ entries t
unfolding display_nodes_in_order
display-entries nil nodes = sym (append-nil _)
display-entries (node k v s h l r) nodes =
    rw (display-entries r, map-append, display-entries l)
      (append_assoc (map pair_of nodes ++ entries l) _ _ ∙ append_assoc (map pair_of nodes) _ _)

-- `Flatten` returns the nodes of the tree in the order of its entries: their keys and costs are the
-- entries.
pub flatten-entries : (t : Node) → map pair_of (flatten t) ≡ entries t
unfolding flatten
flatten-entries t = display-entries t []
