-- ===== src/TxList/Sound/Pops.antt =====
-- Transactions that leave a map one after the other.
use pangu.Prelude.{
  ℕ, suc, zero, ◌+◌, ◌≤◌, ◌<◌, ◌≡◌, refl, sym, ap, ◌∙◌, subst, Bool, true, false, Option, none,
  some, List, [], ◌∷◌, arith, ltb, ◌==◌, lookup, delete, lookup-delete, Bool-cases, inl, inr,
  if◌then◌else◌, length, get_elem?, take, ◌%◌,
}
use pangu.Message.{Transaction}
use pangu.Evm.{u64}
use pangu.TxList.Cost.{map_cost, txs_cost}
use pangu.TxList.Ready.{Popped, forward_loop, ready_loop, all_some}
use pangu.TxList.Cap.{cap_loop}
use pangu.TxList.Ready.Total.{
  IsDistinct, IsIndexed, delete-IsDistinct, map_cost-delete, length-delete,
}
use pangu.TxList.Sound.Index.{FindsSame-IsIndexed, delete-delete}

abbrev Items : Type 0
Items = List (ℕ × Transaction)

-- Each transaction stands under its nonce.
abbrev pub IsKeyed : Items → Type 0
IsKeyed items = (n : ℕ) (t : Transaction) → lookup n items ≡ some t → t.nonce ≡ n

-- The transactions are removed in their order.
unfoldable pub Pops : Items → List Transaction → Items → Type 0
Pops m [] m' = m ≡ m'
Pops m (t ∷ ts) m' = (lookup t.nonce m ≡ some t) × Pops (delete t.nonce m) ts m'

pub delete-IsKeyed : (n : ℕ) (m : Items) → IsKeyed m → IsKeyed (delete n m)
delete-IsKeyed n m k i t h = k i t (let e = lookup-delete n i m in ground arith)

-- What the loops take out.
pub record TakesOut (m : Items) (os : List (Option Transaction)) (m' : Items) : Type 0 where
  pub txs : List Transaction
  pub there : all_some os ≡ some txs
  pub pops : Pops m txs m'

pub TakesOut-none : (m : Items) → TakesOut m [] m
unfolding all_some Pops
TakesOut-none m = record { txs = []; there = refl; pops = refl }

pub TakesOut-one :
    (n : ℕ) (t : Transaction) (m : Items) (os : List (Option Transaction)) (m' : Items)
    → IsKeyed m
    → lookup n m ≡ some t
    → TakesOut (delete n m) os m'
    → TakesOut m (lookup n m ∷ os) m'
unfolding all_some Pops
TakesOut-one n t m os m' k h x = record {
  txs = t ∷ x.txs;
  there = rw (h, all_some) (rw x.there refl);
  pops =
      let is : n ≡ t.nonce = sym (k n t h) in
      subst (λ i. (lookup i m ≡ some t) × Pops (delete i m) x.txs m') is (h, x.pops);
}

TakesOut-if :
    (b : Bool) (m : Items) (p q : Popped)
    → TakesOut m p.0 p.1
    → TakesOut m q.0 q.1
    → TakesOut m (if b then p else q).0 (if b then p else q).1
TakesOut-if true m p q x y = x
TakesOut-if false m p q x y = y

pub forward_loop-TakesOut :
    (threshold : ℕ) (m : Items) (index : List ℕ)
    → IsKeyed m
    → IsIndexed m index
    → TakesOut m (forward_loop threshold m index).0 (forward_loop threshold m index).1
unfolding forward_loop IsIndexed
forward_loop-TakesOut threshold m [] k i = TakesOut-none m
forward_loop-TakesOut threshold m (n ∷ ns) k i =
    TakesOut-if (ltb n threshold) m _ _
      (TakesOut-one n i.0.0 m _ _ k i.0.1
        (forward_loop-TakesOut threshold (delete n m) ns (delete-IsKeyed n m k) i.1))
      (TakesOut-none m)

pub ready_loop-TakesOut :
    (next : ℕ) (m : Items) (index : List ℕ)
    → IsKeyed m
    → IsIndexed m index
    → TakesOut m (ready_loop next m index).0 (ready_loop next m index).1
unfolding ready_loop IsIndexed
ready_loop-TakesOut next m [] k i = TakesOut-none m
ready_loop-TakesOut next m (n ∷ ns) k i =
    TakesOut-if (n == next) m _ _
      (TakesOut-one n i.0.0 m _ _ k i.0.1
        (ready_loop-TakesOut ((next + 1) % u64) (delete n m) ns (delete-IsKeyed n m k) i.1))
      (TakesOut-none m)

-- The last nonce of a heap.
record Last (m : Items) (index : List ℕ) (n : ℕ) : Type 0 where
  nonce : ℕ
  tx : Transaction
  at : get_elem? index n ≡ some nonce
  found : lookup nonce m ≡ some tx
  rest : IsIndexed (delete nonce m) (take n index)

take-Last :
    (index : List ℕ) (n : ℕ) (m : Items)
    → n < length index
    → IsIndexed m (take (suc n) index)
    → Last m index n
unfolding IsIndexed
take-Last [] n m h i = absurd (omega arith)
take-Last (x ∷ xs) zero m h i = record {
  nonce = x;
  tx = i.0.0;
  at = refl;
  found = i.0.1;
  rest = tt;
}
take-Last (x ∷ xs) (suc n) m h i =
    let r = take-Last xs n (delete x m) (omega arith) i.1 in
    let e = lookup-delete x r.nonce m in
    let f = r.found in
    let apart : (x == r.nonce) ≡ false = ground arith in
    let there : lookup r.nonce m ≡ some r.tx = ground arith in
    let g = lookup-delete r.nonce x m in
    let first = i.0.1 in
    let back : (r.nonce == x) ≡ false = ground arith in
    record {
      nonce = r.nonce;
      tx = r.tx;
      at = r.at;
      found = there;
      rest = (
        (i.0.0, g ∙ ap (λ c. if c then none else lookup x m) back ∙ first),
        FindsSame-IsIndexed (take n xs) (delete r.nonce (delete x m)) (delete x (delete r.nonce m))
            (delete-delete x r.nonce m) r.rest,
      );
    }

-- What `Cap` leaves: as many transactions as the limit, those of the front of the heap.
pub record Capped (m : Items) (index : List ℕ) (threshold : ℕ)
    (p : Option (List (Option Transaction) × Items)) : Type 0 where
  pub drops : List (Option Transaction)
  pub kept : Items
  pub result : p ≡ some (drops, kept)
  pub out : TakesOut m drops kept
  pub once : IsDistinct kept
  pub indexed : IsIndexed kept (take threshold index)
  pub full : length kept ≡ threshold

pub cap_loop-Capped :
    (threshold n : ℕ) (m : Items) (index : List ℕ)
    → threshold ≤ n
    → n ≤ length index
    → length m ≡ n
    → IsKeyed m
    → IsDistinct m
    → IsIndexed m (take n index)
    → Capped m index threshold (cap_loop threshold index m n)
unfolding cap_loop
cap_loop-Capped threshold zero m index h e f k d i =
    let same : 0 ≡ threshold = omega arith in
    record {
      drops = [];
      kept = m;
      result = refl;
      out = TakesOut-none m;
      once = d;
      indexed = subst (λ j. IsIndexed m (take j index)) same i;
      full = omega arith;
    }
cap_loop-Capped threshold (suc n) m index h e f k d i = elim (Bool-cases (ltb threshold (suc n))) [
  | inr g ↦
      let same : suc n ≡ threshold = ground arith in
      rw (g, cap_loop)
        (record {
          drops = [];
          kept = m;
          result = refl;
          out = TakesOut-none m;
          once = d;
          indexed = subst (λ j. IsIndexed m (take j index)) same i;
          full = f ∙ same;
        })
  | inl g ↦
      let l = take-Last index n m (omega arith) i in
      let less = length-delete l.nonce m l.tx d l.found in
      let r =
        cap_loop-Capped threshold n (delete l.nonce m) index (ground arith) (omega arith)
          (omega arith) (delete-IsKeyed l.nonce m k) (delete-IsDistinct l.nonce m d) l.rest in
      rw (g, l.at, r.result, cap_loop)
        (record {
          drops = lookup l.nonce m ∷ r.drops;
          kept = r.kept;
          result = refl;
          out = TakesOut-one l.nonce l.tx m r.drops r.kept k l.found r.out;
          once = r.once;
          indexed = r.indexed;
          full = r.full;
        })
]

pub Pops-cost :
    (m : Items) (txs : List Transaction) (m' : Items)
    → IsDistinct m
    → Pops m txs m'
    → map_cost m' + txs_cost txs ≡ map_cost m
unfolding Pops txs_cost
Pops-cost m [] m' d p = let e = ap map_cost p in omega arith
Pops-cost m (t ∷ ts) m' d p =
    let e = map_cost-delete t.nonce m t d p.0 in
    let ih = Pops-cost (delete t.nonce m) ts m' (delete-IsDistinct t.nonce m d) p.1 in omega arith
