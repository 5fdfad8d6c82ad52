-- ===== src/Pool/Enter.antt =====
-- A transaction that comes into the pool, at a free place or in the place of another.
use mathlib.Core.Path.{fun_ext}
use pangu.Prelude.{
  ℕ, ◌≡◌, sym, ap, ◌∙◌, subst, inl, inr, Bool, true, ◌&&◌, none, some, [], ◌∷◌, ◌==◌, ==_iff,
  if◌then◌else◌, arith, Bool-cases,
}
use pangu.Message.{Transaction}
use pangu.Validation.{Received}
use pangu.Lookup as Lookup
use pangu.Lookup.Slots.{IsValid, add-IsValid, remove-IsValid}
use pangu.Pool.Places.{View, assign, Index, known_as, Consistent, place, none_apart, land, at_place}
use pangu.Pool.Moves.{Takes, take_out, discard, arrive}
use pangu.Pool.Keep.{get-remove, get-add}

either_none : (k : Index) (hash h : ℕ) → k h ≡ none → known_as k hash none h ≡ none
either_none k hash h e = ground arith

module _ (sender : Transaction → ℕ) where
  -- A free place is taken.
  pub fresh :
      (p q : View) (k : Index) (r : Received)
      → place sender p r.tx ≡ none
      → place sender q r.tx ≡ none
      → k r.tx.hash ≡ none
      → Consistent sender p q k []
      → Consistent sender
          (assign p (sender r.tx) r.tx.nonce (some r.tx))
          q
          (known_as k r.tx.hash (some r))
          []
  fresh p q k r free free_too new c =
      land sender p q _ r.tx [] (arrive sender p q k r new (free, free_too) c)

  -- The old transaction of a place goes.
  vacated :
      (p : View) (k : Index) (a n : ℕ) (old : Transaction)
      → sender old ≡ a
      → old.nonce ≡ n
      → p a n ≡ some old
      → Takes sender p (assign p a n none) (old ∷ [])
  vacated p k a n old x y there = record {
    kept = λ b m t h. (elim (Bool-cases (a == b && n == m)) [
      | inr f ↦ inl (ap (λ c. if c then none else p b m) f ∙ h)
      | inl f ↦
          let e : a ≡ b = ground arith in
          let g : n ≡ m = ground arith in
          let there' : some old ≡ some t =
            sym there
            ∙ subst (λ i. p i n ≡ some t) (sym e) (subst (λ j. p b j ≡ some t) (sym g) h) in
          inr (ap (λ c. if c then none else p b m) f, inl (ground arith))
    ]);
    back = λ b m t h. (elim (Bool-cases (a == b && n == m)) [
      | inr f ↦ sym (ap (λ c. if c then none else p b m) f) ∙ h
      | inl f ↦ absurd (none_apart (ap (λ c. if c then none else p b m) f) h)
    ]);
    left = ((at_place sender p old a n x y there, gone), tt);
    different = (tt, tt);
  }
    where
      gone : place sender (assign p a n none) old ≡ none
      gone =
          let e : (a == sender old) ≡ true = (==_iff a (sender old)).1 (sym x) in
          let g : (n == old.nonce) ≡ true = (==_iff n old.nonce).1 (sym y) in
          ap (λ c. if c && n == old.nonce then none else p (sender old) old.nonce) e
          ∙ ap (λ c. if c then none else p (sender old) old.nonce) g

  pub replaced :
      (p q : View) (k : Index) (r : Received) (old : Transaction)
      → place sender p r.tx ≡ some old
      → k r.tx.hash ≡ none
      → Consistent sender p q k []
      → Consistent sender
          (assign p (sender r.tx) r.tx.nonce (some r.tx))
          q
          (known_as (known_as k old.hash none) r.tx.hash (some r))
          []
  replaced p q k r old there new c =
      let a = sender r.tx in
      let n = r.tx.nonce in
      let (x, y, z) = c.listed a n old there in
      let out =
        take_out sender p (assign p a n none) q k (old ∷ []) (vacated p k a n old x y there) c in
      let free : assign p a n none a n ≡ none = ground arith in
      let twice : assign (assign p a n none) a n (some r.tx) ≡ assign p a n (some r.tx) =
        fun_ext λ b. fun_ext λ m. ground arith in
      subst (λ v. Consistent sender v q (known_as (known_as k old.hash none) r.tx.hash (some r)) [])
        twice
        (fresh (assign p a n none) q (known_as k old.hash none) r free (c.apart a n old there)
          (either_none k old.hash r.tx.hash new)
          (discard sender (assign p a n none) q k old [] out))

-- The lookup after the old transaction has gone and the new one has come.
pub forget-add :
    (l : Lookup.Lookup) (old : Transaction) (r : Received) (local : Bool)
    → IsValid l
    → Lookup.get l r.tx.hash ≡ none
    → (Lookup.get (Lookup.add (Lookup.remove l old.hash) r local)
        ≡ known_as (known_as (Lookup.get l) old.hash none) r.tx.hash (some r))
      × IsValid (Lookup.add (Lookup.remove l old.hash) r local)
forget-add l old r local v new =
    let still : Lookup.get (Lookup.remove l old.hash) r.tx.hash ≡ none =
      rw (get-remove l old.hash) (either_none (Lookup.get l) old.hash r.tx.hash new) in
    (
      get-add (Lookup.remove l old.hash) r local still
          ∙ ap (λ k. known_as k r.tx.hash (some r)) (get-remove l old.hash),
      add-IsValid (Lookup.remove l old.hash) r local still (remove-IsValid l old.hash v),
    )
