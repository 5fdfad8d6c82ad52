-- ===== src/Avl/Update.antt =====
-- Searching, adding and removing, against the sorted list of the tree's entries.
use pangu.Prelude.{
  ℕ, ◌<◌, ◌≡◌, refl, sym, ap, ◌∙◌, List, [], ◌∷◌, ◌++◌, arith, ltb, ◌==◌, if◌then◌else◌, inl, inr,
  Option, some, All, All-append_left, All-append_right, All-imp, delete, subst, append-nil,
  delete-append, Ensures, Ensures-bind, Ensures-imp, Ordering-cases,
}
use pangu.Prelude.Int.{ℤ, int_laws}
use pangu.Avl.{Node, nil, node, refresh, add, find_smallest, remove_root, remove}
use pangu.Avl.Entries.{entries, HasSums, Rebuilt, refresh-Rebuilt}

-- The keys grow strictly.
abbrev pub IsSorted : List (ℕ × ℤ) → Type 0
IsSorted [] = Unit
IsSorted (e ∷ m) = All (λ f. e.0 < f.0) m × IsSorted m

-- The list with the cost at the key set, for a list in the order of its keys.
unfoldable pub insert_sorted : ℕ → ℤ → List (ℕ × ℤ) → List (ℕ × ℤ)
insert_sorted q w [] = (q, w) ∷ []
insert_sorted q w ((k, v) ∷ m) =
    if ltb q k
    then (q, w) ∷ (k, v) ∷ m
    else if q == k
    then (q, w) ∷ m
    else (k, v) ∷ insert_sorted q w m

insert_before :
    (q : ℕ) (w : ℤ) (k : ℕ) (v : ℤ) (xs ys : List (ℕ × ℤ))
    → q < k
    → insert_sorted q w (xs ++ ((k, v) ∷ ys)) ≡ insert_sorted q w xs ++ ((k, v) ∷ ys)
unfolding insert_sorted
insert_before q w k v [] ys h = ground arith
insert_before q w k v ((j, u) ∷ xs) ys h = ground (arith, insert_before q w k v xs ys h)

insert_after :
    (q : ℕ) (w : ℤ) (k : ℕ) (v : ℤ) (xs ys : List (ℕ × ℤ))
    → All (λ e. e.0 < k) xs
    → k < q
    → insert_sorted q w (xs ++ ((k, v) ∷ ys)) ≡ xs ++ ((k, v) ∷ insert_sorted q w ys)
unfolding insert_sorted
insert_after q w k v [] ys a h = ground arith
insert_after q w k v ((j, u) ∷ xs) ys a h = ground (arith, insert_after q w k v xs ys a.1 h)

insert_at :
    (q : ℕ) (w : ℤ) (k : ℕ) (v : ℤ) (xs ys : List (ℕ × ℤ))
    → All (λ e. e.0 < k) xs
    → q ≡ k
    → insert_sorted q w (xs ++ ((k, v) ∷ ys)) ≡ xs ++ ((k, w) ∷ ys)
unfolding insert_sorted
insert_at q w k v [] ys a h = ground arith
insert_at q w k v ((j, u) ∷ xs) ys a h = ground (arith, insert_at q w k v xs ys a.1 h)

-- What the order of a node's entries says of its subtrees.
pub IsSorted-split :
    (xs : List (ℕ × ℤ)) (k : ℕ) (v : ℤ) (ys : List (ℕ × ℤ))
    → IsSorted (xs ++ ((k, v) ∷ ys))
    → All (λ e. e.0 < k) xs × IsSorted xs × All (λ e. k < e.0) ys × IsSorted ys
IsSorted-split [] k v ys h = (tt, tt, h.0, h.1)
IsSorted-split ((j, u) ∷ xs) k v ys h =
    let rest = IsSorted-split xs k v ys h.1 in
    (
      ((All-append_right _ xs ((k, v) ∷ ys) h.0).0, rest.0),
      (All-append_left _ xs ((k, v) ∷ ys) h.0, rest.1),
      rest.2,
      rest.3,
    )

-- Where `Rebuilt` holds after the entries of a child changed.
abbrev pub Updated : List (ℕ × ℤ) → Node → Type 0
Updated m t = (entries t ≡ m) × HasSums t

refresh-Updated :
    (k : ℕ) (v : ℤ) (h : ℕ) (l r : Node) (m : List (ℕ × ℤ))
    → HasSums l
    → HasSums r
    → entries l ++ ((k, v) ∷ entries r) ≡ m
    → Ensures (Updated m) (refresh k v h l r)
refresh-Updated k v h l r m a b e =
    Ensures-imp (Rebuilt k v l r) (Updated m) (refresh k v h l r) (λ t c. (c.0 ∙ e, c.1))
      (refresh-Rebuilt k v h l r a b)

pub add-Updated :
    (t : Node) (q : ℕ) (w : ℤ)
    → HasSums t
    → IsSorted (entries t)
    → Ensures (Updated (insert_sorted q w (entries t))) (add t q w)
unfolding add insert_sorted
add-Updated nil q w a s = (refl, (omega int_laws, tt, tt))
add-Updated (node k v x h l r) q w a s =
    let (below, sl, above, sr) = IsSorted-split (entries l) k v (entries r) s in
    elim (Ordering-cases q k) [
      | inl (e, p) ↦
          rw (e, Ensures)
            (Ensures-bind (Updated (insert_sorted q w (entries l))) _ (add l q w) _
              (add-Updated l q w a.1 sl)
              (λ l' c.
                refresh-Updated k v h l' r _ c.1 a.2
                  (rw c.0 (sym (insert_before q w k v (entries l) (entries r) p)))))
      | inr (inl (e, p)) ↦
          rw (e, Ensures)
            (refresh-Updated k w h l r _ a.1 a.2
              (sym (insert_at q w k v (entries l) (entries r) below p)))
      | inr (inr (e, p)) ↦
          rw (e, Ensures)
            (Ensures-bind (Updated (insert_sorted q w (entries r))) _ (add r q w) _
              (add-Updated r q w a.2 sr)
              (λ r' c.
                refresh-Updated k v h l r' _ a.1 c.1
                  (rw c.0 (sym (insert_after q w k v (entries l) (entries r) below p)))))
    ]

delete_above : (q : ℕ) (m : List (ℕ × ℤ)) → All (λ e. q < e.0) m → delete q m ≡ m
unfolding delete
delete_above q [] a = refl
delete_above q ((j, u) ∷ m) a = ground (arith, delete_above q m a.1)

delete_below : (q : ℕ) (m : List (ℕ × ℤ)) → All (λ e. e.0 < q) m → delete q m ≡ m
unfolding delete
delete_below q [] a = refl
delete_below q ((j, u) ∷ m) a = ground (arith, delete_below q m a.1)

module _ (q k : ℕ) (v : ℤ) (xs ys : List (ℕ × ℤ)) (s : IsSorted (xs ++ ((k, v) ∷ ys))) where
  delete_before : q < k → delete q (xs ++ ((k, v) ∷ ys)) ≡ delete q xs ++ ((k, v) ∷ ys)
  unfolding delete
  delete_before p =
      let (below, sl, above, sr) = IsSorted-split xs k v ys s in
      let after = delete_above q ys (All-imp _ _ (λ e c. omega arith) ys above) in
      delete-append q xs ((k, v) ∷ ys) ∙ ap (λ m. delete q xs ++ m) (ground arith)

  delete_after : k < q → delete q (xs ++ ((k, v) ∷ ys)) ≡ xs ++ ((k, v) ∷ delete q ys)
  unfolding delete
  delete_after p =
      let (below, sl, above, sr) = IsSorted-split xs k v ys s in
      let before = delete_below q xs (All-imp _ _ (λ e c. omega arith) xs below) in
      delete-append q xs ((k, v) ∷ ys) ∙ rw before (ap (λ m. xs ++ m) (ground arith))

  delete_at : q ≡ k → delete q (xs ++ ((k, v) ∷ ys)) ≡ xs ++ ys
  unfolding delete
  delete_at p =
      let (below, sl, above, sr) = IsSorted-split xs k v ys s in
      let before = delete_below q xs (All-imp _ _ (λ e c. omega arith) xs below) in
      let after = delete_above q ys (All-imp _ _ (λ e c. omega arith) ys above) in
      delete-append q xs ((k, v) ∷ ys) ∙ rw before (ap (λ m. xs ++ m) (ground arith))

delete_first :
    (m : List (ℕ × ℤ)) (k : ℕ) (v : ℤ) (rest : List (ℕ × ℤ))
    → m ≡ (k, v) ∷ rest
    → IsSorted m
    → delete k m ≡ rest
delete_first m k v rest e s =
    let s' : IsSorted ((k, v) ∷ rest) = subst IsSorted e s in rw e (delete_at k k v [] rest s' refl)

-- The smallest node holds the first entry.
first_entry :
    (k : ℕ) (v s : ℤ) (h : ℕ) (l r : Node)
    → (mk : ℕ) × (mv : ℤ) × (ms : ℤ) × (mh : ℕ) × (mr : Node) × (rest : List (ℕ × ℤ))
      × (find_smallest (node k v s h l r) ≡ some (node mk mv ms mh nil mr))
      × (entries (node k v s h l r) ≡ (mk, mv) ∷ rest)
unfolding find_smallest
first_entry k v s h nil r = (k, v, s, h, r, entries r, refl, refl)
first_entry k v s h (node lk lv ls lh ll lr) r =
    let (mk, mv, ms, mh, mr, rest, found, first) = first_entry lk lv ls lh ll lr in
    (mk, mv, ms, mh, mr, rest ++ ((k, v) ∷ entries r), found, rw first)

remove_root-Updated :
    (h : ℕ) (l r : Node) (without : ℕ → Option Node)
    → HasSums l
    → HasSums r
    → IsSorted (entries r)
    → ((m : ℕ) → Ensures (Updated (delete m (entries r))) (without m))
    → Ensures (Updated (entries l ++ entries r)) (remove_root h l r without)
unfolding remove_root
remove_root-Updated h nil nil f a b s c = (refl, tt)
remove_root-Updated h (node lk lv ls lh ll lr) nil f a b s c =
    refresh-Updated lk lv lh ll lr _ a.1 a.2 (sym (append-nil _))
remove_root-Updated h nil (node rk rv rs rh rl rr) f a b s c =
    refresh-Updated rk rv rh rl rr _ b.1 b.2 refl
remove_root-Updated h (node lk lv ls lh ll lr) (node rk rv rs rh rl rr) f a b s c =
    let (mk, mv, ms, mh, mr, rest, found, first) = first_entry rk rv rs rh rl rr in
    let kept : delete mk (entries (node rk rv rs rh rl rr)) ≡ rest =
      delete_first _ mk mv rest first s in
    rw (found, Ensures)
      (Ensures-bind (Updated (delete mk (entries (node rk rv rs rh rl rr)))) _ (f mk) _ (c mk)
        (λ r' d. refresh-Updated mk mv h (node lk lv ls lh ll lr) r' _ a d.1 (
          ap (λ m. entries (node lk lv ls lh ll lr) ++ m)
            (ap (λ m. (mk, mv) ∷ m) (d.0 ∙ kept) ∙ sym first))))

pub remove-Updated :
    (t : Node) (q : ℕ)
    → HasSums t
    → IsSorted (entries t)
    → Ensures (Updated (delete q (entries t))) (remove t q)
unfolding remove delete
remove-Updated nil q a s = (refl, tt)
remove-Updated (node k v x h l r) q a s =
    let (below, sl, above, sr) = IsSorted-split (entries l) k v (entries r) s in
    elim (Ordering-cases q k) [
      | inl (e, p) ↦
          rw (e, Ensures)
            (Ensures-bind (Updated (delete q (entries l))) _ (remove l q) _
              (remove-Updated l q a.1 sl)
              (λ l' c.
                refresh-Updated k v h l' r _ c.1 a.2
                  (rw c.0 (sym (delete_before q k v (entries l) (entries r) s p)))))
      | inr (inl (e, p)) ↦
          rw (e, Ensures)
            (Ensures-imp (Updated (entries l ++ entries r)) _ (remove_root h l r (remove r))
              (λ t c. (c.0 ∙ sym (delete_at q k v (entries l) (entries r) s p), c.1))
              (remove_root-Updated h l r (remove r) a.1 a.2 sr (λ m. remove-Updated r m a.2 sr)))
      | inr (inr (e, p)) ↦
          rw (e, Ensures)
            (Ensures-bind (Updated (delete q (entries r))) _ (remove r q) _
              (remove-Updated r q a.2 sr)
              (λ r' c.
                refresh-Updated k v h l r' _ a.1 c.1
                  (rw c.0 (sym (delete_after q k v (entries l) (entries r) s p)))))
    ]

insert_above :
    (b q : ℕ) (w : ℤ) (m : List (ℕ × ℤ))
    → b < q
    → All (λ e. b < e.0) m
    → All (λ e. b < e.0) (insert_sorted q w m)
unfolding insert_sorted
insert_above b q w [] p a = (p, tt)
insert_above b q w ((k, v) ∷ m) p a = ground (arith, insert_above b q w m p a.1)

pub insert-IsSorted :
    (q : ℕ) (w : ℤ) (m : List (ℕ × ℤ)) → IsSorted m → IsSorted (insert_sorted q w m)
unfolding insert_sorted
insert-IsSorted q w [] s = (tt, tt)
insert-IsSorted q w ((k, v) ∷ m) s = elim (Ordering-cases q k) [
  | inl (e, p) ↦ rw (e, IsSorted) ((p, All-imp _ _ (λ f c. omega arith) m s.0), s)
  | inr (inl (e, p)) ↦ rw (e, e, IsSorted) (rw p s.0, s.1)
  | inr (inr (e, p)) ↦ rw (e, e, IsSorted) (insert_above k q w m p s.0, insert-IsSorted q w m s.1)
]

delete-All : (P : ℕ × ℤ → Type 0) (q : ℕ) (m : List (ℕ × ℤ)) → All P m → All P (delete q m)
unfolding delete
delete-All P q [] a = tt
delete-All P q ((k, v) ∷ m) a = ground (arith, delete-All P q m a.1)

pub delete-IsSorted : (q : ℕ) (m : List (ℕ × ℤ)) → IsSorted m → IsSorted (delete q m)
unfolding delete
delete-IsSorted q [] s = tt
delete-IsSorted q ((k, v) ∷ m) s =
    ground (arith, delete-IsSorted q m s.1, delete-All (λ e. k < e.0) q m s.0)
