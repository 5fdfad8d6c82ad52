-- ===== src/Pool/Moves.antt =====
-- Transactions that leave a list, leave the lookup or come in, as the views see them.
use pangu.Prelude.{
  ℕ, ◌≡◌, refl, sym, ap, ◌∙◌, subst, ◌⊎◌, inl, inr, false, none, some, List, [], ◌∷◌, ◌==◌, ==_iff,
  if◌then◌else◌, arith, All, Bool-cases,
}
use pangu.Message.{Transaction}
use pangu.Validation.{Received}
use pangu.Pool.Places.{
  View, Index, known_as, Among, Known, Listed, place, IsFree, IsElsewhere, IsSpread, Consistent,
  none_apart, same_hash, hash_elsewhere, same_entry,
}

module _ (sender : Transaction → ℕ) where
  entries_without :
      (v : View) (k : Index) (t : Transaction)
      → Known k t
      → place sender v t ≡ none
      → Listed sender v k
      → Listed sender v (known_as k t.hash none)
  entries_without v k t known free l a n u h =
      let (x, y, z) = l a n u h in
      (x, y, same_entry k t.hash none u (hash_elsewhere sender v k t u a n l h known free) z)

  other_hash :
      (k : Index) (t u : Transaction)
      → Known k t
      → Known k u
      → IsElsewhere sender t u
      → (t.hash == u.hash) ≡ false
  other_hash k t u x y e = elim (Bool-cases (t.hash == u.hash)) [
    | inr f ↦ f
    | inl h ↦
        let same : t ≡ u = same_hash k t u x y ((==_iff t.hash u.hash).0 h) in
        absurd (e (ap sender same) (ap (λ w. w.nonce) same))
  ]

  flying_without :
      (p q : View) (k : Index) (t : Transaction) (ts : List Transaction)
      → Known k t
      → All (IsElsewhere sender t) ts
      → All (λ u. Known k u × IsFree sender p q u) ts
      → All (λ u. Known (known_as k t.hash none) u × IsFree sender p q u) ts
  flying_without p q k t [] known e f = tt
  flying_without p q k t (u ∷ us) known e f = (
    (same_entry k t.hash none u (other_hash k t u known f.0.0 e.0) f.0.0, f.0.1),
    flying_without p q k t us known e.1 f.1,
  )

  -- A transaction in flight is forgotten.
  pub discard :
      (p q : View) (k : Index) (t : Transaction) (ts : List Transaction)
      → Consistent sender p q k (t ∷ ts)
      → Consistent sender p q (known_as k t.hash none) ts
  discard p q k t ts c = record {
    listed = entries_without p k t c.flying.0.0 c.flying.0.1.0 c.listed;
    listed_too = entries_without q k t c.flying.0.0 c.flying.0.1.1 c.listed_too;
    apart = c.apart;
    flying = flying_without p q k t ts c.flying.0.0 c.spread.0 c.flying.1;
    spread = c.spread.1;
    indexed = λ h r e. (elim (Bool-cases (t.hash == h)) [
      | inl f ↦ absurd (none_apart refl (sym (ap (λ c. if c then none else k h) f) ∙ e))
      | inr f ↦
          let (x, y) = c.indexed h r (sym (ap (λ c. if c then none else k h) f) ∙ e) in
          (x, still h r.tx x f y)
    ]);
  }
    where
      still :
          (h : ℕ) (u : Transaction)
          → u.hash ≡ h
          → (t.hash == h) ≡ false
          → (place sender p u ≡ some u) ⊎ (place sender q u ≡ some u) ⊎ Among u (t ∷ ts)
          → (place sender p u ≡ some u) ⊎ (place sender q u ≡ some u) ⊎ Among u ts
      still h u x f (inl y) = inl y
      still h u x f (inr (inl y)) = inr (inl y)
      still h u x f (inr (inr (inr m))) = inr (inr m)
      still h u x f (inr (inr (inl s))) =
          let same : t.hash ≡ h = ap (λ w. w.hash) (sym s) ∙ x in absurd (ground arith)

  entries_with :
      (v : View) (k : Index) (r : Received)
      → k r.tx.hash ≡ none
      → Listed sender v k
      → Listed sender v (known_as k r.tx.hash (some r))
  entries_with v k r new l a n u h =
      let (x, y, z) = l a n u h in
      (
        x,
        y,
        same_entry k r.tx.hash (some r) u
            (elim (Bool-cases (r.tx.hash == u.hash)) [
              | inr f ↦ f
              | inl f ↦
                  absurd
                    (none_apart (subst (λ i. k i ≡ none) ((==_iff r.tx.hash u.hash).0 f) new) z.1)
            ])
            z,
      )

  -- A transaction comes in.
  pub arrive :
      (p q : View) (k : Index) (r : Received)
      → k r.tx.hash ≡ none
      → IsFree sender p q r.tx
      → Consistent sender p q k []
      → Consistent sender p q (known_as k r.tx.hash (some r)) (r.tx ∷ [])
  arrive p q k r new free c = record {
    listed = entries_with p k r new c.listed;
    listed_too = entries_with q k r new c.listed_too;
    apart = c.apart;
    flying = (((r, ground arith, refl), free), tt);
    spread = (tt, tt);
    indexed = λ h s e. (elim (Bool-cases (r.tx.hash == h)) [
      | inl f ↦
          let same : r ≡ s = ground arith in
          (
            ap (λ w. w.tx.hash) (sym same) ∙ (==_iff r.tx.hash h).0 f,
            inr (inr (inl (ap (λ w. w.tx) (sym same)))),
          )
      | inr f ↦
          let (x, y) = c.indexed h s (sym (ap (λ c. if c then some r else k h) f) ∙ e) in
          (x, (elim y [ inl z ↦ inl z | inr (inl z) ↦ inr (inl z) | inr (inr m) ↦ absurd m ]))
    ]);
  }

  -- What leaves a view: the transactions `gone`, from different places.
  pub record Takes (v v' : View) (gone : List Transaction) : Type 0 where
    pub kept :
        (a n : ℕ) (t : Transaction)
        → v a n ≡ some t
        → (v' a n ≡ some t) ⊎ ((v' a n ≡ none) × Among t gone)
    pub back : (a n : ℕ) (t : Transaction) → v' a n ≡ some t → v a n ≡ some t
    pub left : All (λ t. (place sender v t ≡ some t) × (place sender v' t ≡ none)) gone
    pub different : IsSpread sender gone

  -- Transactions leave the first view and are in flight.
  pub take_out :
      (p p' q : View) (k : Index) (gone : List Transaction)
      → Takes p p' gone
      → Consistent sender p q k []
      → Consistent sender p' q k gone
  take_out p p' q k gone x c = record {
    listed = λ a n t h. c.listed a n t (x.back a n t h);
    listed_too = c.listed_too;
    apart = λ a n t h. c.apart a n t (x.back a n t h);
    flying = flying_out gone x.left;
    spread = x.different;
    indexed = λ h r e. ((c.indexed h r e).0, out r.tx (c.indexed h r e).1);
  }
    where
      flying_out :
          (ts : List Transaction)
          → All (λ t. (place sender p t ≡ some t) × (place sender p' t ≡ none)) ts
          → All (λ t. Known k t × IsFree sender p' q t) ts
      flying_out [] f = tt
      flying_out (t ∷ ts) f = (
        (
          (let (x, y, z) = c.listed (sender t) t.nonce t f.0.0 in z),
          (f.0.1, c.apart (sender t) t.nonce t f.0.0),
        ),
        flying_out ts f.1,
      )

      out :
          (u : Transaction)
          → (place sender p u ≡ some u) ⊎ (place sender q u ≡ some u) ⊎ Among u []
          → (place sender p' u ≡ some u) ⊎ (place sender q u ≡ some u) ⊎ Among u gone
      out u (inl h) = elim (x.kept (sender u) u.nonce u h) [ inl y ↦ inl y | inr y ↦ inr (inr y.1) ]
      out u (inr (inl h)) = inr (inl h)
      out u (inr (inr m)) = absurd m
