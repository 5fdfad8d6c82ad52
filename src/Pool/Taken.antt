-- ===== src/Pool/Taken.antt =====
-- What leaves the map of a list: a removed nonce, and what a filter removes.
use pangu.Prelude.{
  ℕ, ◌≡◌, refl, sym, ap, ◌∙◌, subst, ◌⊎◌, inl, inr, Bool, true, false, Option, none, some, List, [],
  ◌∷◌, ◌++◌, ◌==◌, ==_iff, if◌then◌else◌, arith, All, All-append, All-imp, Bool-cases, Option-cases,
  lookup, delete, lookup-delete,
}
use pangu.Message.{Transaction}
use pangu.TxList.{kept, removed}
use pangu.TxList.Ready.Total.{IsDistinct}
use pangu.TxList.Sound.Pops.{IsKeyed, Pops}
use pangu.Pool.Places.{Among, none_apart}

abbrev pub Items : Type 0
Items = List (ℕ × Transaction)

abbrev pub HasOtherNonce : Transaction → Transaction → Type 0
HasOtherNonce t u = t.nonce ≡ u.nonce → ⊥

abbrev pub HasNonces : List Transaction → Type 0
HasNonces [] = Unit
HasNonces (t ∷ ts) = All (HasOtherNonce t) ts × HasNonces ts

abbrev pub Left : Items → Items → Transaction → Type 0
Left m m' t = (lookup t.nonce m ≡ some t) × (lookup t.nonce m' ≡ none)

-- The transactions `gone`, with different nonces, left the map, and nothing else did.
pub record Loses (m m' : Items) (gone : List Transaction) : Type 0 where
  pub stays :
      (n : ℕ) (t : Transaction)
      → lookup n m ≡ some t
      → (lookup n m' ≡ some t) ⊎ ((lookup n m' ≡ none) × Among t gone)
  pub was : (n : ℕ) (t : Transaction) → lookup n m' ≡ some t → lookup n m ≡ some t
  pub left : All (Left m m') gone
  pub different : HasNonces gone

pub delete-Loses :
    (m : Items) (t : Transaction) → lookup t.nonce m ≡ some t → Loses m (delete t.nonce m) (t ∷ [])
delete-Loses m t h = record {
  stays = λ n u e. (elim (Bool-cases (t.nonce == n)) [
    | inl f ↦
        let same : t.nonce ≡ n = (==_iff t.nonce n).0 f in
        let there : some u ≡ some t = sym e ∙ subst (λ i. lookup i m ≡ some t) same h in
        inr (
          lookup-delete t.nonce n m ∙ ap (λ c. if c then none else lookup n m) f,
          inl (ground arith),
        )
    | inr f ↦ inl (lookup-delete t.nonce n m ∙ ap (λ c. if c then none else lookup n m) f ∙ e)
  ]);
  was = λ n u e. (elim (Bool-cases (t.nonce == n)) [
    | inl f ↦
        absurd
          (none_apart (lookup-delete t.nonce n m ∙ ap (λ c. if c then none else lookup n m) f) e)
    | inr f ↦ sym (lookup-delete t.nonce n m ∙ ap (λ c. if c then none else lookup n m) f) ∙ e
  ]);
  left = (
    (
      h,
      lookup-delete t.nonce t.nonce m
          ∙ ap (λ c. if c then none else lookup t.nonce m) ((==_iff t.nonce t.nonce).1 refl),
    ),
    tt,
  );
  different = (tt, tt);
}

-- What a filter leaves under a nonce.
abbrev sift : (Transaction → Bool) → Option Transaction → Option Transaction
sift p none = none
sift p (some t) = if p t then none else some t

lookup-kept :
    (p : Transaction → Bool) (m : Items) (n : ℕ)
    → IsDistinct m
    → lookup n (kept p m) ≡ sift p (lookup n m)
unfolding lookup kept IsDistinct
lookup-kept p [] n d = refl
lookup-kept p ((k, t) ∷ m) n d =
    let ih = lookup-kept p m n d.1 in
    elim (Bool-cases (k == n)) [
      | inr f ↦ elim (Bool-cases (p t)) [
        | inl g ↦ rw (f, g) ih
        | inr g ↦ rw (f, g) (ap (λ c. if c then some t else lookup n (kept p m)) f ∙ ih)
      ]
      | inl f ↦
          let gone : lookup n m ≡ none = subst (λ i. lookup i m ≡ none) ((==_iff k n).0 f) d.0 in
          elim (Bool-cases (p t)) [
            | inl g ↦ rw (f, g) (ih ∙ ap (sift p) gone)
            | inr g ↦ rw (f, g) (ap (λ c. if c then some t else lookup n (kept p m)) f)
          ]
    ]

found-removed :
    (p : Transaction → Bool) (m : Items) (n : ℕ) (t : Transaction)
    → lookup n m ≡ some t
    → p t ≡ true
    → Among t (removed p m)
unfolding lookup removed
found-removed p [] n t h g = absurd (none_apart refl h)
found-removed p ((k, u) ∷ m) n t h g = elim (Bool-cases (k == n)) [
  | inl f ↦ let same : u ≡ t = ground arith in rw (ap p same ∙ g) (inl (sym same))
  | inr f ↦
      let rest = found-removed p m n t (sym (ap (λ c. if c then some u else lookup n m) f) ∙ h) g in
      elim (Bool-cases (p u)) [ inl e ↦ rw e (inr rest) | inr e ↦ rw e rest ]
]

lost-back :
    (p : Transaction → Bool) (m : Items) (n : ℕ) (t : Transaction)
    → IsDistinct m
    → lookup n (kept p m) ≡ some t
    → (lookup n m ≡ some t) × (p t ≡ false)
lost-back p m n t d h = elim (Option-cases (lookup n m)) [
  | inl e ↦ absurd (none_apart (lookup-kept p m n d ∙ ap (sift p) e) h)
  | inr (u, e) ↦
      let there : sift p (some u) ≡ some t = ap (sift p) (sym e) ∙ sym (lookup-kept p m n d) ∙ h in
      elim (Bool-cases (p u)) [
        | inl g ↦ absurd (none_apart (ap (λ c. if c then none else some u) g) there)
        | inr g ↦
            let same : u ≡ t = ground arith in (e ∙ ap some same, subst (λ w. p w ≡ false) same g)
      ]
]

differs :
    (n i : ℕ) (u : Transaction) (m : Items)
    → lookup n m ≡ none
    → lookup i m ≡ some u
    → (n == i) ≡ false
differs n i u m gone there = elim (Bool-cases (n == i)) [
  | inr f ↦ f
  | inl f ↦ absurd (none_apart (subst (λ j. lookup j m ≡ none) ((==_iff n i).0 f) gone) there)
]

tail_nonces :
    (n : ℕ) (t : Transaction) (m : Items) → lookup n m ≡ none → IsKeyed ((n, t) ∷ m) → IsKeyed m
unfolding lookup
tail_nonces n t m gone k i u h =
    k i u (ap (λ c. if c then some t else lookup i m) (differs n i u m gone h) ∙ h)

removed-there :
    (p : Transaction → Bool) (m : Items)
    → IsDistinct m
    → IsKeyed m
    → All (λ t. (lookup t.nonce m ≡ some t) × (p t ≡ true)) (removed p m)
unfolding lookup removed IsDistinct
removed-there p [] d k = tt
removed-there p ((n, t) ∷ m) d k =
    let at_n : t.nonce ≡ n = k n t (ground arith) in
    let rest : All (λ u. (lookup u.nonce ((n, t) ∷ m) ≡ some u) × (p u ≡ true)) (removed p m) =
      All-imp _ _
        (λ u (h, g).
          (ap (λ c. if c then some t else lookup u.nonce m) (differs n u.nonce u m d.0 h) ∙ h, g))
        (removed p m) (removed-there p m d.1 (tail_nonces n t m d.0 k)) in
    elim (Bool-cases (p t)) [ inl g ↦ rw g ((ground arith, g), rest) | inr g ↦ rw g rest ]

removed-HasNonces :
    (p : Transaction → Bool) (m : Items) → IsDistinct m → IsKeyed m → HasNonces (removed p m)
unfolding lookup removed IsDistinct
removed-HasNonces p [] d k = tt
removed-HasNonces p ((n, t) ∷ m) d k =
    let at_n : t.nonce ≡ n = k n t (ground arith) in
    let keyed = tail_nonces n t m d.0 k in
    let others : All (HasOtherNonce t) (removed p m) =
      All-imp _ (HasOtherNonce t)
        (λ u (h, g) same. none_apart (subst (λ i. lookup i m ≡ none) (sym at_n ∙ same) d.0) h)
        (removed p m) (removed-there p m d.1 keyed) in
    let rest = removed-HasNonces p m d.1 keyed in
    elim (Bool-cases (p t)) [ inl g ↦ rw g (others, rest) | inr g ↦ rw g rest ]

pub kept-Loses :
    (p : Transaction → Bool) (m : Items)
    → IsDistinct m
    → IsKeyed m
    → Loses m (kept p m) (removed p m)
kept-Loses p m d k = record {
  stays = λ n t h. (elim (Bool-cases (p t)) [
    | inl g ↦ inr (
      lookup-kept p m n d ∙ ap (sift p) h ∙ ap (λ c. if c then none else some t) g,
      found-removed p m n t h g,
    )
    | inr g ↦ inl (lookup-kept p m n d ∙ ap (sift p) h ∙ ap (λ c. if c then none else some t) g)
  ]);
  was = λ n t h. (lost-back p m n t d h).0;
  left =
      All-imp _ (Left m (kept p m))
        (λ t (h, g).
          (h, lookup-kept p m t.nonce d ∙ ap (sift p) h ∙ ap (λ c. if c then none else some t) g))
        (removed p m) (removed-there p m d k);
  different = removed-HasNonces p m d k;
}

pub Among-left : (t : Transaction) (xs ys : List Transaction) → Among t xs → Among t (xs ++ ys)
Among-left t (x ∷ xs) ys (inl h) = inl h
Among-left t (x ∷ xs) ys (inr h) = inr (Among-left t xs ys h)
Among-left t [] ys h = absurd h

pub Among-right : (t : Transaction) (xs ys : List Transaction) → Among t ys → Among t (xs ++ ys)
Among-right t [] ys h = h
Among-right t (x ∷ xs) ys h = inr (Among-right t xs ys h)

-- One loss after another.
pub Loses-trans :
    (m m1 m2 : Items) (xs ys : List Transaction)
    → Loses m m1 xs
    → Loses m1 m2 ys
    → Loses m m2 (xs ++ ys)
Loses-trans m m1 m2 xs ys a b = record {
  stays = λ n t h. (elim (a.stays n t h) [
    | inr (e, i) ↦ inr (still_gone n e, Among-left t xs ys i)
    | inl e ↦ elim (b.stays n t e) [ inl f ↦ inl f | inr (f, i) ↦ inr (f, Among-right t xs ys i) ]
  ]);
  was = λ n t h. a.was n t (b.was n t h);
  left =
      All-append (Left m m2) xs ys
        (All-imp (Left m m1) (Left m m2) (λ t (h, e). (h, still_gone t.nonce e)) xs a.left)
        (All-imp (Left m1 m2) (Left m m2) (λ t (h, e). (a.was t.nonce t h, e)) ys b.left);
  different = joined xs a.left a.different;
}
  where
    still_gone : (n : ℕ) → lookup n m1 ≡ none → lookup n m2 ≡ none
    still_gone n e = elim (Option-cases (lookup n m2)) [
      | inl f ↦ f
      | inr (t, f) ↦ absurd (none_apart e (b.was n t f))
    ]

    others : (t : Transaction) → lookup t.nonce m1 ≡ none → All (HasOtherNonce t) ys
    others t e =
        All-imp (Left m1 m2) (HasOtherNonce t)
          (λ u (h, g) same. none_apart (subst (λ i. lookup i m1 ≡ none) same e) h) ys b.left

    joined : (zs : List Transaction) → All (Left m m1) zs → HasNonces zs → HasNonces (zs ++ ys)
    joined [] l d = b.different
    joined (z ∷ zs) l d =
        (All-append (HasOtherNonce z) zs ys d.0 (others z l.0.1), joined zs l.1 d.1)

pub Loses-none : (m : Items) → Loses m m []
Loses-none m = record { stays = λ n t h. inl h; was = λ n t h. h; left = tt; different = tt }

pub Pops-Loses : (m : Items) (txs : List Transaction) (m' : Items) → Pops m txs m' → Loses m m' txs
unfolding Pops
Pops-Loses m [] m' p = subst (λ x. Loses m x []) p (Loses-none m)
Pops-Loses m (t ∷ ts) m' p =
    Loses-trans m (delete t.nonce m) m' (t ∷ []) ts (delete-Loses m t p.0)
      (Pops-Loses (delete t.nonce m) ts m' p.1)
