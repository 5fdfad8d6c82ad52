-- ===== src/TxList/Sound/Index.antt =====
-- The heap of the nonces of a map, when the map changes.
use pangu.Prelude.{
  ℕ, ◌≡◌, refl, sym, ap, ◌∙◌, subst, false, none, some, List, [], ◌∷◌, arith, ltb, ◌==◌, ==_iff,
  lookup, insert, delete, lookup-insert, lookup-delete, Bool-cases, inl, inr, if◌then◌else◌, length,
  ◌+◌,
}
use pangu.Message.{Transaction}
use pangu.TxList.{push, reheap_index, drop_nonce}
use pangu.TxList.Ready.Total.{IsDistinct, IsIndexed, length-delete, delete-IsDistinct}

abbrev Items : Type 0
Items = List (ℕ × Transaction)

-- Only what is found in the map matters.
abbrev pub FindsSame : Items → Items → Type 0
FindsSame xs ys = (i : ℕ) → lookup i xs ≡ lookup i ys

delete-FindsSame : (n : ℕ) (xs ys : Items) → FindsSame xs ys → FindsSame (delete n xs) (delete n ys)
delete-FindsSame n xs ys f i =
    lookup-delete n i xs ∙ ap (λ o. if n == i then none else o) (f i) ∙ sym (lookup-delete n i ys)

pub FindsSame-IsIndexed :
    (index : List ℕ) (xs ys : Items) → FindsSame xs ys → IsIndexed xs index → IsIndexed ys index
unfolding IsIndexed
FindsSame-IsIndexed [] xs ys f h = tt
FindsSame-IsIndexed (n ∷ ns) xs ys f h = (
  (h.0.0, sym (f n) ∙ h.0.1),
  FindsSame-IsIndexed ns (delete n xs) (delete n ys) (delete-FindsSame n xs ys f) h.1,
)

delete-insert :
    (m n : ℕ) (t : Transaction) (items : Items)
    → (m == n) ≡ false
    → FindsSame (insert n t (delete m items)) (delete m (insert n t items))
delete-insert m n t items f i =
    let a = lookup-insert n i t (delete m items) in
    let b = lookup-delete m i items in
    let c = lookup-delete m i (insert n t items) in
    let d = lookup-insert n i t items in ground arith

delete-insert_same :
    (n : ℕ) (t : Transaction) (items : Items)
    → FindsSame (delete n items) (delete n (insert n t items))
delete-insert_same n t items i =
    let a = lookup-delete n i items in
    let b = lookup-delete n i (insert n t items) in
    let c = lookup-insert n i t items in ground arith

pub delete-delete :
    (m n : ℕ) (items : Items) → FindsSame (delete n (delete m items)) (delete m (delete n items))
delete-delete m n items i =
    let a = lookup-delete n i (delete m items) in
    let b = lookup-delete m i items in
    let c = lookup-delete m i (delete n items) in let d = lookup-delete n i items in ground arith

-- A transaction in the place of another.
pub insert-IsIndexed :
    (n : ℕ) (t : Transaction) (index : List ℕ) (items : Items)
    → IsIndexed items index
    → IsIndexed (insert n t items) index
unfolding IsIndexed
insert-IsIndexed n t [] items h = tt
insert-IsIndexed n t (m ∷ ms) items h =
    let there = lookup-insert n m t items in
    elim (Bool-cases (m == n)) [
      | inl f ↦
          let same : m ≡ n = (==_iff m n).0 f in
          (
            (t, ground arith),
            FindsSame-IsIndexed ms (delete m items) (delete m (insert n t items))
                (subst (λ k. FindsSame (delete k items) (delete k (insert n t items))) (sym same)
                  (delete-insert_same n t items))
                h.1,
          )
      | inr f ↦
          let found : lookup m items ≡ some h.0.0 = h.0.1 in
          (
            (h.0.0, ground arith),
            FindsSame-IsIndexed ms (insert n t (delete m items)) (delete m (insert n t items))
                (delete-insert m n t items f) (insert-IsIndexed n t ms (delete m items) h.1),
          )
    ]

-- A new nonce.
pub push-IsIndexed :
    (n : ℕ) (t : Transaction) (index : List ℕ) (items : Items)
    → lookup n items ≡ none
    → IsIndexed items index
    → IsIndexed (insert n t items) (push n index)
unfolding IsIndexed push
push-IsIndexed n t [] items new h = ((t, let a = lookup-insert n n t items in ground arith), tt)
push-IsIndexed n t (m ∷ ms) items new h =
    let found : lookup m items ≡ some h.0.0 = h.0.1 in
    let apart : (m == n) ≡ false = differ h.0.0 found in
    let there = lookup-insert n m t items in
    let here = lookup-insert n n t items in
    let less = lookup-delete m n items in
    elim (Bool-cases (ltb m n)) [
      | inl f ↦ rw f (
        (h.0.0, ground arith),
        FindsSame-IsIndexed (push n ms) (insert n t (delete m items)) (delete m (insert n t items))
            (delete-insert m n t items apart)
            (push-IsIndexed n t ms (delete m items) (ground arith) h.1),
      )
      | inr f ↦ rw f (
        (t, ground arith),
        FindsSame-IsIndexed (m ∷ ms) items (delete n (insert n t items)) back h,
      )
    ]
  where
    differ : (u : Transaction) → lookup m items ≡ some u → (m == n) ≡ false
    differ u e = elim (Bool-cases (m == n)) [
      | inr f ↦ f
      | inl f ↦
          let gone : lookup n items ≡ some u =
            subst (λ i. lookup i items ≡ some u) ((==_iff m n).0 f) e in
          cc
    ]

    back : FindsSame items (delete n (insert n t items))
    back i = elim (Bool-cases (n == i)) [
      | inl f ↦
          subst (λ j. lookup j items ≡ none) ((==_iff n i).0 f) new
          ∙ sym (
              lookup-delete n i (insert n t items)
              ∙ ap (λ c. if c then none else lookup i (insert n t items)) f)
      | inr f ↦
          let a = lookup-delete n i (insert n t items) in
          let b = lookup-insert n i t items in ground arith
    ]

pub drop_nonce-IsIndexed :
    (n : ℕ) (index : List ℕ) (items : Items)
    → IsIndexed items index
    → IsIndexed (delete n items) (drop_nonce n index)
unfolding IsIndexed drop_nonce
drop_nonce-IsIndexed n [] items h = tt
drop_nonce-IsIndexed n (m ∷ ms) items h =
    let found : lookup m items ≡ some h.0.0 = h.0.1 in
    let less = lookup-delete n m items in
    elim (Bool-cases (m == n)) [
      | inl f ↦ rw f (subst (λ k. IsIndexed (delete k items) ms) ((==_iff m n).0 f) h.1)
      | inr f ↦ rw f (
        (h.0.0, ground arith),
        FindsSame-IsIndexed (drop_nonce n ms) (delete n (delete m items))
            (delete m (delete n items)) (delete-delete m n items)
            (drop_nonce-IsIndexed n ms (delete m items) h.1),
      )
    ]

-- The heap made again.
pub reheap_index-IsIndexed :
    (items : Items) → IsDistinct items → IsIndexed items (reheap_index items)
unfolding IsDistinct IsIndexed reheap_index lookup
reheap_index-IsIndexed [] d = tt
reheap_index-IsIndexed ((n, t) ∷ items) d =
    FindsSame-IsIndexed (push n (reheap_index items)) (insert n t items) ((n, t) ∷ items)
      (λ i. lookup-insert n i t items)
      (push-IsIndexed n t (reheap_index items) items d.0 (reheap_index-IsIndexed items d.1))

pub length-push : (n : ℕ) (index : List ℕ) → length (push n index) ≡ length index + 1
unfolding push
length-push n [] = refl
length-push n (m ∷ ms) = let ih = length-push n ms in ground arith

pub length-reheap_index : (items : Items) → length (reheap_index items) ≡ length items
unfolding reheap_index
length-reheap_index [] = refl
length-reheap_index ((n, t) ∷ items) =
    let ih = length-reheap_index items in let a = length-push n (reheap_index items) in omega arith

pub length-insert_old :
    (n : ℕ) (t old : Transaction) (items : Items)
    → lookup n items ≡ some old
    → length (insert n t items) ≡ length items
unfolding lookup insert
length-insert_old n t old [] h = ground arith
length-insert_old n t old ((m, u) ∷ items) h = elim (Bool-cases (m == n)) [
  | inl f ↦ ground arith
  | inr f ↦ let ih = length-insert_old n t old items in ground arith
]

-- A heap as long as its map has every nonce of it, so dropping one makes it shorter.
pub length-drop_nonce :
    (n : ℕ) (t : Transaction) (index : List ℕ) (items : Items)
    → IsDistinct items
    → IsIndexed items index
    → length index ≡ length items
    → lookup n items ≡ some t
    → length (drop_nonce n index) + 1 ≡ length index
unfolding IsIndexed drop_nonce lookup
length-drop_nonce n t [] [] d i e h = ground arith
length-drop_nonce n t [] (x ∷ items) d i e h = absurd (omega arith)
length-drop_nonce n t (m ∷ ms) items d i e h = elim (Bool-cases (m == n)) [
  | inl f ↦ rw f (omega arith)
  | inr f ↦
      let less = length-delete m items i.0.0 d i.0.1 in
      let there : lookup n (delete m items) ≡ some t =
        lookup-delete m n items ∙ ap (λ c. if c then none else lookup n items) f ∙ h in
      let ih =
        length-drop_nonce n t ms (delete m items) (delete-IsDistinct m items d) i.1 (omega arith)
          there in
      rw f (omega arith)
]
