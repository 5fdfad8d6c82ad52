-- ===== src/Pool/Places.antt =====
-- Where the transactions of the pool are: a view of the lists, by account and nonce, and of the lookup,
-- by hash. A transaction on its way from one place to another is in flight.
use pangu.Prelude.{
  ℕ, ◌≡◌, sym, ap, ◌∙◌, subst, ◌⊎◌, inl, inr, false, ◌&&◌, Option, none, some, List, [], ◌∷◌, ◌==◌,
  ==_iff, if◌then◌else◌, arith, All, Bool-cases, Option-cases,
}
use pangu.Message.{Transaction}
use pangu.Validation.{Received}

abbrev pub View : Type 0
View = ℕ → ℕ → Option Transaction

-- The view with another entry at one place.
abbrev pub assign : View → ℕ → ℕ → Option Transaction → View
assign v a n x b m = if a == b && n == m then x else v b m

abbrev pub Index : Type 0
Index = ℕ → Option Received

abbrev pub known_as : Index → ℕ → Option Received → Index
known_as k hash x h = if hash == h then x else k h

abbrev pub Among : Transaction → List Transaction → Type 0
Among t [] = ⊥
Among t (u ∷ us) = (t ≡ u) ⊎ Among t us

-- The lookup has the transaction under its hash.
abbrev pub Known : Index → Transaction → Type 0
Known k t = (r : Received) × (k t.hash ≡ some r) × (r.tx ≡ t)

pub none_apart {ℓ} : {A : Type ℓ} {o : Option A} {x : A} → o ≡ none → o ≡ some x → ⊥
none_apart h k = cc

-- Two listed or flying transactions with one hash are one.
pub same_hash : (k : Index) (t u : Transaction) → Known k t → Known k u → t.hash ≡ u.hash → t ≡ u
same_hash k t u (r, e, x) (s, f, y) h =
    let g : k u.hash ≡ some r = subst (λ i. k i ≡ some r) h e in let z : r ≡ s = cc in cc

pub same_entry :
    (k : Index) (hash : ℕ) (x : Option Received) (u : Transaction)
    → (hash == u.hash) ≡ false
    → Known k u
    → Known (known_as k hash x) u
same_entry k hash x u f (r, e, y) = (r, ap (λ c. if c then x else k u.hash) f ∙ e, y)

module _ (sender : Transaction → ℕ) where
  -- An entry stands at its sender and nonce, and the lookup has it.
  abbrev pub Listed : View → Index → Type 0
  Listed v k =
      (a n : ℕ) (t : Transaction) → v a n ≡ some t → (sender t ≡ a) × (t.nonce ≡ n) × Known k t

  -- The place of a transaction in a view.
  abbrev pub place : View → Transaction → Option Transaction
  place v t = v (sender t) t.nonce

  abbrev pub IsFree : View → View → Transaction → Type 0
  IsFree p q t = (place p t ≡ none) × (place q t ≡ none)

  -- Two transactions with different places.
  abbrev pub IsElsewhere : Transaction → Transaction → Type 0
  IsElsewhere t u = sender t ≡ sender u → t.nonce ≡ u.nonce → ⊥

  abbrev pub IsSpread : List Transaction → Type 0
  IsSpread [] = Unit
  IsSpread (t ∷ ts) = All (IsElsewhere t) ts × IsSpread ts

  -- The two views `p` and `q`, the lookup and the transactions in flight fit together.
  pub record Consistent (p q : View) (k : Index) (flight : List Transaction) : Type 0 where
    pub listed : Listed p k
    pub listed_too : Listed q k
    pub apart : (a n : ℕ) (t : Transaction) → p a n ≡ some t → q a n ≡ none
    pub flying : All (λ t. Known k t × IsFree p q t) flight
    pub spread : IsSpread flight
    pub indexed :
        (h : ℕ) (r : Received)
        → k h ≡ some r
        → (r.tx.hash ≡ h)
          × ((place p r.tx ≡ some r.tx) ⊎ (place q r.tx ≡ some r.tx) ⊎ Among r.tx flight)

  pub apart_sym :
      (p q : View)
      → ((a n : ℕ) (t : Transaction) → p a n ≡ some t → q a n ≡ none)
      → (a n : ℕ) (t : Transaction) → q a n ≡ some t
      → p a n ≡ none
  apart_sym p q f a n t h = elim (Option-cases (p a n)) [
    | inl e ↦ e
    | inr (u, e) ↦ absurd (none_apart (f a n u e) h)
  ]

  pub swap :
      (p q : View) (k : Index) (flight : List Transaction)
      → Consistent p q k flight
      → Consistent q p k flight
  swap p q k flight c = record {
    listed = c.listed_too;
    listed_too = c.listed;
    apart = apart_sym p q c.apart;
    flying = swap_all flight c.flying;
    spread = c.spread;
    indexed = λ h r e. (
      (c.indexed h r e).0,
      elim (c.indexed h r e).1 [
        | inl x ↦ inr (inl x)
        | inr (inl x) ↦ inl x
        | inr (inr x) ↦ inr (inr x)
      ],
    );
  }
    where
      swap_all :
          (ts : List Transaction)
          → All (λ t. Known k t × IsFree p q t) ts
          → All (λ t. Known k t × IsFree q p t) ts
      swap_all [] f = tt
      swap_all (t ∷ ts) f = ((f.0.0, (f.0.1.1, f.0.1.0)), swap_all ts f.1)

  pub at_place :
      (v : View) (u : Transaction) (a n : ℕ)
      → sender u ≡ a
      → u.nonce ≡ n
      → v a n ≡ some u
      → place v u ≡ some u
  at_place v u a n x y e =
      subst (λ i. v i u.nonce ≡ some u) (sym x) (subst (λ m. v a m ≡ some u) (sym y) e)

  -- What is listed is elsewhere than what has a free place.
  pub hash_elsewhere :
      (v : View) (k : Index) (t u : Transaction) (a n : ℕ)
      → Listed v k
      → v a n ≡ some u
      → Known k t
      → place v t ≡ none
      → (t.hash == u.hash) ≡ false
  hash_elsewhere v k t u a n l e known free = elim (Bool-cases (t.hash == u.hash)) [
    | inr f ↦ f
    | inl h ↦
        let (x, y, z) = l a n u e in
        let same : t ≡ u = same_hash k t u known z ((==_iff t.hash u.hash).0 h) in
        let there : v (sender u) u.nonce ≡ some u = at_place v u a n x y e in
        absurd (none_apart (subst (λ w. place v w ≡ none) same free) there)
  ]

  -- A transaction in flight lands in the first view.
  land_first :
      (p : View) (k : Index) (t : Transaction)
      → Known k t
      → Listed p k
      → Listed (assign p (sender t) t.nonce (some t)) k
  land_first p k t known l a n u h = elim (Bool-cases (sender t == a && t.nonce == n)) [
    | inr f ↦ l a n u (sym (ap (λ c. if c then some t else p a n) f) ∙ h)
    | inl f ↦
        let x : sender t ≡ a = ground arith in
        let y : t.nonce ≡ n = ground arith in
        let same : t ≡ u = ground arith in
        subst (λ w. (sender w ≡ a) × (w.nonce ≡ n) × Known k w) same (x, y, known)
  ]

  elsewhere_false :
      (t u : Transaction) → IsElsewhere t u → (sender t == sender u && t.nonce == u.nonce) ≡ false
  elsewhere_false t u e = ground arith

  land_flying :
      (p q : View) (k : Index) (t : Transaction) (ts : List Transaction)
      → All (IsElsewhere t) ts
      → All (λ u. Known k u × IsFree p q u) ts
      → All (λ u. Known k u × IsFree (assign p (sender t) t.nonce (some t)) q u) ts
  land_flying p q k t [] e f = tt
  land_flying p q k t (u ∷ us) e f = (
    (
      f.0.0,
      (
        ap (λ c. if c then some t else p (sender u) u.nonce) (elsewhere_false t u e.0) ∙ f.0.1.0,
        f.0.1.1,
      ),
    ),
    land_flying p q k t us e.1 f.1,
  )

  pub land :
      (p q : View) (k : Index) (t : Transaction) (ts : List Transaction)
      → Consistent p q k (t ∷ ts)
      → Consistent (assign p (sender t) t.nonce (some t)) q k ts
  land p q k t ts c = record {
    listed = land_first p k t c.flying.0.0 c.listed;
    listed_too = c.listed_too;
    apart = λ a n u h. (elim (Bool-cases (sender t == a && t.nonce == n)) [
      | inr f ↦ c.apart a n u (sym (ap (λ c. if c then some t else p a n) f) ∙ h)
      | inl f ↦
          let x : sender t ≡ a = ground arith in
          let y : t.nonce ≡ n = ground arith in
          subst (λ i. q i n ≡ none) x (subst (λ m. q (sender t) m ≡ none) y c.flying.0.1.1)
    ]);
    flying = land_flying p q k t ts c.spread.0 c.flying.1;
    spread = c.spread.1;
    indexed = λ h r e. ((c.indexed h r e).0, landed r.tx (c.indexed h r e).1);
  }
    where
      new_place :
          (u : Transaction) → t ≡ u → place (assign p (sender t) t.nonce (some t)) u ≡ some u
      new_place u s =
          subst (λ w. place (assign p (sender t) t.nonce (some t)) w ≡ some w) s (ground arith)

      kept_place :
          (u : Transaction)
          → place p u ≡ some u
          → place (assign p (sender t) t.nonce (some t)) u ≡ some u
      kept_place u h = elim (Bool-cases (sender t == sender u && t.nonce == u.nonce)) [
        | inr f ↦ ap (λ c. if c then some t else place p u) f ∙ h
        | inl f ↦
            let x : sender u ≡ sender t = ground arith in
            let y : u.nonce ≡ t.nonce = ground arith in
            absurd (
              none_apart c.flying.0.1.0
                (subst (λ i. p i t.nonce ≡ some u) x (subst (λ m. p (sender u) m ≡ some u) y h)))
      ]

      landed :
          (u : Transaction)
          → (place p u ≡ some u) ⊎ (place q u ≡ some u) ⊎ Among u (t ∷ ts)
          → (place (assign p (sender t) t.nonce (some t)) u ≡ some u)
            ⊎ (place q u ≡ some u)
            ⊎ Among u ts
      landed u (inl h) = inl (kept_place u h)
      landed u (inr (inl h)) = inr (inl h)
      landed u (inr (inr (inl s))) = inl (new_place u (sym s))
      landed u (inr (inr (inr m))) = inr (inr m)
