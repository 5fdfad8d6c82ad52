-- ===== src/TxList/Sound/Out.antt =====
-- `Forward`, `Ready` and `Cap` of a sound list: they return, what they return leaves the map, and the list
-- that is left is sound.
use pangu.Prelude.{
  ℕ, suc, zero, ◌-◌, ◌≤◌, ◌≡◌, refl, sym, ap, subst, Option, none, some, List, [], ◌∷◌, arith, ltb,
  leb, Bool-cases, inl, inr, length, take, Returns,
}
use pangu.Message.{Transaction}
use pangu.TxList.{SortedMap, TxList}
use pangu.TxList.Cost.{txs_cost}
use pangu.TxList.Ready.{all_some, forward, ready, settle_total, forward_list, ready_list}
use pangu.TxList.Ready.Total.{Took, IsIndexed, IsSound, ready_list-IsSound, settle_total-IsSound}
use pangu.TxList.Cap.{cap, cap_list}
use pangu.TxList.Sound.Pops.{
  IsKeyed, Pops, TakesOut, TakesOut-none, forward_loop-TakesOut, ready_loop-TakesOut,
  cap_loop-Capped, Pops-cost,
}

-- The outcome of a call that takes transactions out of a list.
pub record Goes (l : TxList) (o : Option (TxList × List Transaction)) : Type 0 where
  pub rest : TxList
  pub txs : List Transaction
  pub returns : o ≡ some (rest, txs)
  pub pops : Pops l.txs.items txs rest.txs.items
  pub sound : IsSound rest
  pub same_mode : rest.strict ≡ l.strict

settled :
    (l : TxList) (m : SortedMap) (os : List (Option Transaction))
    → TakesOut l.txs.items os m.items
    → Returns (λ r. IsSound r.0) (settle_total l (m, os))
    → (g : Goes l (settle_total l (m, os))) × (g.rest.txs ≡ m)
unfolding settle_total
settled l m os x s =
    let s' = rw (x.there, settle_total) at s in
    rw (x.there, settle_total)
      (
        record {
          rest = _;
          txs = x.txs;
          returns = refl;
          pops = x.pops;
          sound = s';
          same_mode = refl;
        },
        refl,
      )

pub forward_list-Goes :
    (l : TxList) (threshold : ℕ)
    → IsSound l
    → IsKeyed l.txs.items
    → Goes l (forward_list l threshold)
unfolding forward_list
forward_list-Goes l threshold s k =
    (settled l (forward l.txs threshold).0 (forward l.txs threshold).1
      (unfold forward in forward_loop-TakesOut threshold l.txs.items l.txs.index k s.indexed)
      (ready_list-IsSound l threshold threshold s).1).0

made : List (ℕ × Transaction) → List ℕ → Option (List Transaction) → SortedMap
made items index cache = record { items = items; index = index; cache = cache }

made-TakesOut :
    (items : List (ℕ × Transaction)) (index : List ℕ) (cache : Option (List Transaction))
    (start : ℕ)
    → IsKeyed items
    → IsIndexed items index
    → TakesOut items
        (ready (made items index cache) start).1
        (ready (made items index cache) start).0.items
unfolding ready made
made-TakesOut items [] cache start k i = TakesOut-none items
made-TakesOut items (n ∷ ns) cache start k i = elim (Bool-cases (ltb start n)) [
  | inl t ↦ rw (t, ready) (TakesOut-none items)
  | inr t ↦ rw (t, ready) (ready_loop-TakesOut n items (n ∷ ns) k i)
]

pub ready_list-Goes :
    (l : TxList) (start : ℕ) → IsSound l → IsKeyed l.txs.items → Goes l (ready_list l start)
unfolding ready_list made
ready_list-Goes l start s k =
    (settled l (ready l.txs start).0 (ready l.txs start).1
      (made-TakesOut l.txs.items l.txs.index l.txs.cache start k s.indexed)
      (ready_list-IsSound l start start s).0).0

take_all : (xs : List ℕ) → take (length xs) xs ≡ xs
take_all [] = refl
take_all (x ∷ xs) = ap (◌∷◌ x) (take_all xs)

length-take : (n : ℕ) (xs : List ℕ) → n ≤ length xs → length (take n xs) ≡ n
length-take zero xs h = refl
length-take (suc n) [] h = absurd (omega arith)
length-take (suc n) (x ∷ xs) h = ap suc (length-take n xs (omega arith))

within : (m m' : SortedMap) (n : ℕ) → m ≡ m' → length m'.items ≤ n → length m.items ≤ n
within m m' n e h = subst (λ x. length x.items ≤ n) (sym e) h

-- `Cap` of a sound list whose transactions each stand under their nonce returns, leaves a sound list and
-- no more transactions than the limit, and what it returns is what it took out of the list.
pub cap_list-Goes :
    (l : TxList) (threshold : ℕ)
    → IsSound l
    → IsKeyed l.txs.items
    → (g : Goes l (cap_list l threshold)) × (length g.rest.txs.items ≤ threshold)
unfolding cap_list cap all_some txs_cost
cap_list-Goes l threshold s k = elim (Bool-cases (leb (length l.txs.items) threshold)) [
  | inl f ↦
      let took : Took l.txs.items l.txs.index ([], l.txs.items, l.txs.index) = record {
        txs = [];
        there = refl;
        counted = omega arith;
        once = s.once;
        indexed = s.indexed;
        sizes = omega arith;
      } in
      let (g, same) =
        settled l l.txs [] (TakesOut-none l.txs.items)
          (settle_total-IsSound l l.txs [] s.total s.complete took) in
      let small : length l.txs.items ≤ threshold = ground arith in
      rw (f, cap_list, cap) (g, within g.rest.txs l.txs threshold same small)
  | inr f ↦
      let full = s.complete in
      let small : threshold ≤ length l.txs.index = ground arith in
      let c =
        cap_loop-Capped threshold (length l.txs.items) l.txs.items l.txs.index (ground arith)
          (omega arith) refl k s.once
          (subst (λ n. IsIndexed l.txs.items (take n l.txs.index)) s.complete
            (subst (IsIndexed l.txs.items) (sym (take_all l.txs.index)) s.indexed)) in
      let left : SortedMap = record {
        items = c.kept;
        index = take threshold l.txs.index;
        cache = (elim l.txs.cache [
          | none ↦ none
          | some cached ↦ some (take (length cached - length c.drops) cached)
        ]);
      } in
      let took : Took l.txs.items l.txs.index (c.drops, c.kept, take threshold l.txs.index) =
        record {
          txs = c.out.txs;
          there = c.out.there;
          counted = Pops-cost l.txs.items c.out.txs c.kept s.once c.out.pops;
          once = c.once;
          indexed = c.indexed;
          sizes = let a = length-take threshold l.txs.index small in let b = c.full in omega arith;
        } in
      let (g, same) =
        settled l left c.drops c.out
          (settle_total-IsSound l left c.drops s.total s.complete took) in
      let fits : length left.items ≤ threshold = let a = c.full in omega arith in
      rw (f, c.result, cap_list, cap) (g, within g.rest.txs left threshold same fits)
]
