-- ===== src/TxList/Ready/Total.antt =====
-- Taking transactions out of a list keeps its total cost right.
use pangu.Prelude.{
  ℕ, ◌+◌, ◌%◌, ◌≡◌, refl, sym, ap, ◌∙◌, subst, Bool, true, false, Option, none, some, List, [], ◌∷◌,
  ltb, ◌==◌, ==_iff, Returns, if◌then◌else◌, lookup, delete, lookup-delete, arith, Bool-cases, inl,
  inr, length,
}
use pangu.Prelude.Int.{pos}
use pangu.Evm.{u64}
use pangu.Message.{Transaction}
use pangu.TxList.{cost, SortedMap, TxList, sub_total_cost}
use pangu.TxList.Cost.{map_cost, txs_cost, HasTotal, sub_total_cost-pos}
use pangu.TxList.Ready.{
  Popped, forward_loop, ready_loop, forward, ready, all_some, settle_total, forward_list,
  ready_list,
}

-- No nonce stands twice in the map.
unfoldable pub IsDistinct : List (ℕ × Transaction) → Type 0
IsDistinct [] = Unit
IsDistinct ((n, tx) ∷ items) = (lookup n items ≡ none) × IsDistinct items

-- Each nonce that the heap gives has its item still.
unfoldable pub IsIndexed : List (ℕ × Transaction) → List ℕ → Type 0
IsIndexed items [] = Unit
IsIndexed items (n ∷ ns) =
    ((tx : Transaction) × (lookup n items ≡ some tx)) × IsIndexed (delete n items) ns

delete_absent : (k : ℕ) (m : List (ℕ × Transaction)) → lookup k m ≡ none → delete k m ≡ m
unfolding lookup delete
delete_absent k [] h = refl
delete_absent k ((i, u) ∷ m) h = ground (arith, delete_absent k m)

pub map_cost-delete :
    (n : ℕ) (items : List (ℕ × Transaction)) (tx : Transaction)
    → IsDistinct items
    → lookup n items ≡ some tx
    → map_cost (delete n items) + cost tx ≡ map_cost items
unfolding map_cost lookup delete IsDistinct
map_cost-delete n [] tx d h = ground arith
map_cost-delete n ((k, s) ∷ items) tx d h = elim (Bool-cases (k == n)) [
  | inl t ↦
      let gone : lookup n items ≡ none =
        subst (λ i. lookup i items ≡ none) ((==_iff k n).0 t) d.0 in
      let same = delete_absent n items gone in ground arith
  | inr t ↦ let ih = map_cost-delete n items tx d.1 in ground arith
]

pub length-delete :
    (n : ℕ) (items : List (ℕ × Transaction)) (tx : Transaction)
    → IsDistinct items
    → lookup n items ≡ some tx
    → length (delete n items) + 1 ≡ length items
unfolding lookup delete IsDistinct
length-delete n [] tx d h = ground arith
length-delete n ((k, s) ∷ items) tx d h = elim (Bool-cases (k == n)) [
  | inl t ↦
      let gone : lookup n items ≡ none =
        subst (λ i. lookup i items ≡ none) ((==_iff k n).0 t) d.0 in
      let same = delete_absent n items gone in ground arith
  | inr t ↦ let ih = length-delete n items tx d.1 in ground arith
]

pub delete-IsDistinct :
    (n : ℕ) (items : List (ℕ × Transaction)) → IsDistinct items → IsDistinct (delete n items)
unfolding delete IsDistinct
delete-IsDistinct n [] d = tt
delete-IsDistinct n ((k, s) ∷ items) d =
    let ih = delete-IsDistinct n items d.1 in
    let there = lookup-delete n k items in
    elim (Bool-cases (k == n)) [
      | inl t ↦ rw t ih
      | inr t ↦
          let apart : (n == k) ≡ false = ground arith in
          rw t (there ∙ ap (λ c. if c then none else lookup k items) apart ∙ d.0, ih)
    ]

-- What a loop took: transactions that are there, whose costs the rest of the map has less.
pub record Took (items : List (ℕ × Transaction)) (start : List ℕ) (p : Popped) : Type 0 where
  pub txs : List Transaction
  pub there : all_some p.0 ≡ some txs
  pub counted : map_cost p.1 + txs_cost txs ≡ map_cost items
  pub once : IsDistinct p.1
  pub indexed : IsIndexed p.1 p.2
  pub sizes : length p.2 + length items ≡ length p.1 + length start

Took-none :
    (items : List (ℕ × Transaction)) (index : List ℕ)
    → IsDistinct items
    → IsIndexed items index
    → Took items index ([], items, index)
unfolding txs_cost all_some
Took-none items index d i = record {
  txs = [];
  there = refl;
  counted = omega arith;
  once = d;
  indexed = i;
  sizes = omega arith;
}

Took-one :
    (n : ℕ) (ns : List ℕ) (items : List (ℕ × Transaction)) (p : Popped)
    → IsDistinct items
    → ((tx : Transaction) × (lookup n items ≡ some tx))
    → Took (delete n items) ns p
    → Took items (n ∷ ns) (lookup n items ∷ p.0, p.1, p.2)
unfolding txs_cost all_some
Took-one n ns items p d (tx, h) q = record {
  txs = tx ∷ q.txs;
  there = rw (h, all_some) (rw q.there refl);
  counted = let a = map_cost-delete n items tx d h in let b = q.counted in omega arith;
  once = q.once;
  indexed = q.indexed;
  sizes = let a = length-delete n items tx d h in let b = q.sizes in omega arith;
}

Took-if :
    (b : Bool) (items : List (ℕ × Transaction)) (start : List ℕ) (p q : Popped)
    → Took items start p
    → Took items start q
    → Took items start (if b then p else q)
Took-if true items start p q x y = x
Took-if false items start p q x y = y

ready_loop-Took :
    (next : ℕ) (items : List (ℕ × Transaction)) (index : List ℕ)
    → IsDistinct items
    → IsIndexed items index
    → Took items index (ready_loop next items index)
unfolding ready_loop IsIndexed
ready_loop-Took next items [] d i = Took-none items [] d i
ready_loop-Took next items (n ∷ ns) d i =
    Took-if (n == next) items (n ∷ ns) _ _
      (Took-one n ns items (ready_loop ((next + 1) % u64) (delete n items) ns) d i.0
        (ready_loop-Took ((next + 1) % u64) (delete n items) ns (delete-IsDistinct n items d) i.1))
      (Took-none items (n ∷ ns) d i)

forward_loop-Took :
    (threshold : ℕ) (items : List (ℕ × Transaction)) (index : List ℕ)
    → IsDistinct items
    → IsIndexed items index
    → Took items index (forward_loop threshold items index)
unfolding forward_loop IsIndexed
forward_loop-Took threshold items [] d i = Took-none items [] d i
forward_loop-Took threshold items (n ∷ ns) d i =
    Took-if (ltb n threshold) items (n ∷ ns) _ _
      (Took-one n ns items (forward_loop threshold (delete n items) ns) d i.0
        (forward_loop-Took threshold (delete n items) ns (delete-IsDistinct n items d) i.1))
      (Took-none items (n ∷ ns) d i)

-- A list with its total, whose heap gives the nonces of its map.
pub record IsSound (l : TxList) : Type 0 where
  pub total : HasTotal l
  pub once : IsDistinct l.txs.items
  pub indexed : IsIndexed l.txs.items l.txs.index
  pub complete : length l.txs.index ≡ length l.txs.items

pub settle_total-IsSound :
    (l : TxList) (m : SortedMap) (os : List (Option Transaction))
    → HasTotal l
    → length l.txs.index ≡ length l.txs.items
    → Took l.txs.items l.txs.index (os, m.items, m.index)
    → Returns (λ r. IsSound r.0) (settle_total l (m, os))
unfolding settle_total
settle_total-IsSound l m os h full q =
    let paid : sub_total_cost l.totalcost q.txs ≡ pos (map_cost m.items) =
      ap (λ t. sub_total_cost t q.txs) (h ∙ ap pos (sym q.counted))
      ∙ sub_total_cost-pos (map_cost m.items) q.txs in
    rw (q.there, settle_total)
      (record {
        total = paid;
        once = q.once;
        indexed = q.indexed;
        complete = let a = q.sizes in omega arith;
      })

made : List (ℕ × Transaction) → List ℕ → Option (List Transaction) → SortedMap
made items index cache = record { items = items; index = index; cache = cache }

made-Took :
    (items : List (ℕ × Transaction)) (index : List ℕ) (cache : Option (List Transaction))
    (start : ℕ)
    → IsDistinct items
    → IsIndexed items index
    → Took items index (
      (ready (made items index cache) start).1,
      (ready (made items index cache) start).0.items,
      (ready (made items index cache) start).0.index,
    )
unfolding ready made
made-Took items [] cache start d i = Took-none items [] d i
made-Took items (n ∷ ns) cache start d i = elim (Bool-cases (ltb start n)) [
  | inl t ↦ rw (t, ready) (Took-none items (n ∷ ns) d i)
  | inr t ↦ rw (t, ready) (ready_loop-Took n items (n ∷ ns) d i)
]

ready-Took :
    (m : SortedMap) (start : ℕ)
    → IsDistinct m.items
    → IsIndexed m.items m.index
    → Took m.items m.index ((ready m start).1, (ready m start).0.items, (ready m start).0.index)
unfolding made
ready-Took m start d i = made-Took m.items m.index m.cache start d i

-- On a list whose total is right, whose nonces stand once in the map and are those of the heap, `Ready`
-- and `Forward` return without a panic and leave such a list.
pub ready_list-IsSound :
    (l : TxList) (start threshold : ℕ)
    → IsSound l
    → Returns (λ r. IsSound r.0) (ready_list l start)
      × Returns (λ r. IsSound r.0) (forward_list l threshold)
unfolding ready_list forward_list
ready_list-IsSound l start threshold s = (
  settle_total-IsSound l (ready l.txs start).0 (ready l.txs start).1 s.total s.complete
      (ready-Took l.txs start s.once s.indexed),
  settle_total-IsSound l (forward l.txs threshold).0 (forward l.txs threshold).1 s.total s.complete
      (unfold forward in forward_loop-Took threshold l.txs.items l.txs.index s.once s.indexed),
)
