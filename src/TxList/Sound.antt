-- ===== src/TxList/Sound.antt =====
-- Every change of a list keeps it sound: its total cost, its nonces, and the heap of its nonces.
pub mod Index
pub mod Pops
pub mod Out
use pangu.Prelude.{
  ℕ, ◌+◌, ◌≡◌, refl, sym, ap, ◌∙◌, subst, Bool, true, false, Option, none, some, List, [], ◌∷◌,
  arith, ltb, leb, ◌==◌, ==_iff, ◌&&◌, lookup, insert, delete, lookup-insert, lookup-delete,
  Option-cases, Bool-cases, inl, inr, if◌then◌else◌, length, length-insert_new,
}
use pangu.Prelude.Int.{ℤ, pos, ◌-ℤ◌, int_laws}
use pangu.Message.{Transaction}
use pangu.TxList.{
  cost, SortedMap, get_tx, put, kept, removed, is_nil, filter_items, filter_reheap, reheap,
  remove_nonce, drop_nonce, push, TxList, new_list, sub_total_cost, is_underpriced, accept, add_tx,
  remove_tx, is_unaffordable, filter_invalids, filter_list, lowest_nonce, max_nonce,
}
use pangu.TxList.Cost.{
  map_cost, txs_cost, HasTotal, sub_total_cost-pos, kept-removed, add_tx-HasTotal,
  filter_list-HasTotal, filter_reheap-kept,
}
use pangu.TxList.Ready.Total.{
  IsDistinct, IsIndexed, IsSound, delete-IsDistinct, map_cost-delete, length-delete,
}
use pangu.TxList.Sound.Index.{
  insert-IsIndexed, push-IsIndexed, drop_nonce-IsIndexed, reheap_index-IsIndexed, length-push,
  length-reheap_index, length-insert_old, length-drop_nonce,
}

pub kept-IsDistinct :
    (p : Transaction → Bool) (m : List (ℕ × Transaction)) → IsDistinct m → IsDistinct (kept p m)
unfolding IsDistinct kept lookup
kept-IsDistinct p [] d = tt
kept-IsDistinct p ((n, t) ∷ m) d =
    let rest = kept-IsDistinct p m d.1 in
    elim (Bool-cases (p t)) [ inl g ↦ rw g rest | inr g ↦ rw g (absent n m d.0, rest) ]
  where
    absent : (n : ℕ) (m : List (ℕ × Transaction)) → lookup n m ≡ none → lookup n (kept p m) ≡ none
    absent n [] h = refl
    absent n ((k, u) ∷ m) h = ground (arith, absent n m)

insert-IsDistinct :
    (n : ℕ) (t : Transaction) (m : List (ℕ × Transaction))
    → IsDistinct m
    → IsDistinct (insert n t m)
unfolding lookup insert IsDistinct
insert-IsDistinct n t [] d = (refl, tt)
insert-IsDistinct n t ((k, u) ∷ m) d =
    let ih = insert-IsDistinct n t m d.1 in
    let there = lookup-insert n k t m in
    elim (Bool-cases (k == n)) [
      | inl f ↦ rw f (subst (λ i. lookup i m ≡ none) ((==_iff k n).0 f) d.0, d.1)
      | inr f ↦
          let apart : (n == k) ≡ false = ground arith in
          rw f (there ∙ ap (λ c. if c then some t else lookup k m) apart ∙ d.0, ih)
    ]

pub new_list-IsSound : (strict : Bool) → IsSound (new_list strict)
unfolding new_list map_cost IsDistinct IsIndexed
new_list-IsSound strict = record { total = refl; once = tt; indexed = tt; complete = refl }

put-IsIndexed :
    (m : SortedMap) (t : Transaction)
    → IsIndexed m.items m.index
    → IsIndexed (put m t).items (put m t).index
unfolding put
put-IsIndexed m t h = elim (Option-cases (lookup t.nonce m.items)) [
  | inl e ↦ rw (e, put) (push-IsIndexed t.nonce t m.index m.items e h)
  | inr (old, e) ↦ rw (e, put) (insert-IsIndexed t.nonce t m.index m.items h)
]

put_complete :
    (m : SortedMap) (t : Transaction)
    → length m.index ≡ length m.items
    → length (put m t).index ≡ length (put m t).items
unfolding put
put_complete m t h = elim (Option-cases (lookup t.nonce m.items)) [
  | inl e ↦
      let a = length-push t.nonce m.index in
      let b = length-insert_new t.nonce t m.items e in rw (e, put) (omega arith)
  | inr (old, e) ↦ let b = length-insert_old t.nonce t old m.items e in rw (e, put) (omega arith)
]

-- `Add` keeps a list sound, whether it accepts the transaction or not.
pub add_tx-IsSound :
    (l : TxList) (tx : Transaction) (price_bump : ℕ)
    → IsSound l
    → IsSound (add_tx l tx price_bump).0
unfolding add_tx get_tx accept
add_tx-IsSound l tx price_bump s =
    let total = add_tx-HasTotal l tx price_bump s.total in
    let once : IsDistinct (put l.txs tx).items =
      unfold put in insert-IsDistinct tx.nonce tx l.txs.items s.once in
    let indexed = put-IsIndexed l.txs tx s.indexed in
    let full = put_complete l.txs tx s.complete in
    elim (Option-cases (lookup tx.nonce l.txs.items)) [
      | inl e ↦
          let total' = rw (e, add_tx) at total in
          rw (e, add_tx)
            (record { total = total'; once = once; indexed = indexed; complete = full })
      | inr (old, e) ↦ elim (Bool-cases (is_underpriced old tx price_bump)) [
        | inl u ↦ rw (e, u, add_tx) s
        | inr u ↦
            let total' = rw (e, u, add_tx) at total in
            rw (e, u, add_tx)
              (record { total = total'; once = once; indexed = indexed; complete = full })
      ]
    ]

kept-all :
    (p : Transaction → Bool) (m : List (ℕ × Transaction))
    → is_nil (removed p m) ≡ true
    → kept p m ≡ m
unfolding kept removed is_nil
kept-all p [] h = refl
kept-all p ((n, t) ∷ m) h = elim (Bool-cases (p t)) [
  | inl g ↦ ground arith
  | inr g ↦
      let rest : is_nil (removed p m) ≡ true = ground arith in
      rw g (ap (◌∷◌ (n, t)) (kept-all p m rest))
]

filter_reheap-IsIndexed :
    (p : Transaction → Bool) (m : SortedMap)
    → IsDistinct m.items
    → IsIndexed m.items m.index
    → IsIndexed (filter_reheap p m).0.items (filter_reheap p m).0.index
unfolding filter_reheap filter_items reheap
filter_reheap-IsIndexed p m d h = elim (Bool-cases (is_nil (removed p m.items))) [
  | inl e ↦ rw (e, filter_reheap) (subst (λ i. IsIndexed i m.index) (sym (kept-all p m.items e)) h)
  | inr e ↦
      rw (e, filter_reheap) (reheap_index-IsIndexed (kept p m.items) (kept-IsDistinct p m.items d))
]

filter_reheap_complete :
    (p : Transaction → Bool) (m : SortedMap)
    → length m.index ≡ length m.items
    → length (filter_reheap p m).0.index ≡ length (filter_reheap p m).0.items
unfolding filter_reheap filter_items reheap
filter_reheap_complete p m h = elim (Bool-cases (is_nil (removed p m.items))) [
  | inl e ↦ rw (e, filter_reheap) (h ∙ ap length (sym (kept-all p m.items e)))
  | inr e ↦ rw (e, filter_reheap) (length-reheap_index (kept p m.items))
]

-- The map without a nonce that it has.
record Without (m m' : SortedMap) (tx : Transaction) : Type 0 where
  total : map_cost m'.items + cost tx ≡ map_cost m.items
  once : IsDistinct m'.items
  indexed : IsIndexed m'.items m'.index
  complete : length m'.index ≡ length m'.items

remove_nonce-Without :
    (m : SortedMap) (tx : Transaction)
    → IsDistinct m.items
    → IsIndexed m.items m.index
    → length m.index ≡ length m.items
    → lookup tx.nonce m.items ≡ some tx
    → Without m (remove_nonce m tx.nonce).0 tx
unfolding remove_nonce
remove_nonce-Without m tx d i full h =
    rw (h, remove_nonce)
      (record {
        total = map_cost-delete tx.nonce m.items tx d h;
        once = delete-IsDistinct tx.nonce m.items d;
        indexed = drop_nonce-IsIndexed tx.nonce m.index m.items i;
        complete =
            let a = length-delete tx.nonce m.items tx d h in
            let b = length-drop_nonce tx.nonce tx m.index m.items d i full h in omega arith;
      })

paid : (t : ℤ) (a b c : ℕ) → t ≡ pos a → b + c ≡ a → t -ℤ pos c ≡ pos b
paid t a b c h k = rw h (omega int_laws)

remove_nonce-bool :
    (m : SortedMap) (nonce : ℕ) (tx : Transaction)
    → lookup nonce m.items ≡ some tx
    → (remove_nonce m nonce).1 ≡ true
unfolding remove_nonce
remove_nonce-bool m nonce tx h = rw (h, remove_nonce) refl

-- `Remove` of a transaction of the list keeps the list sound.
pub remove_tx-IsSound :
    (l : TxList) (tx : Transaction)
    → IsSound l
    → lookup tx.nonce l.txs.items ≡ some tx
    → IsSound (remove_tx l tx).0
unfolding remove_tx sub_total_cost txs_cost
remove_tx-IsSound l tx s h =
    let m = (remove_nonce l.txs tx.nonce).0 in
    let w = remove_nonce-Without l.txs tx s.once s.indexed s.complete h in
    let above = λ (other : Transaction). ltb tx.nonce other.nonce in
    let (left, gone) = filter_reheap-kept above m in
    let parts = kept-removed above m.items in
    let step : l.totalcost -ℤ pos (cost tx) ≡ pos (map_cost m.items) =
      paid l.totalcost (map_cost l.txs.items) (map_cost m.items) (cost tx) s.total w.total in
    let rest = sub_total_cost-pos (map_cost (kept above m.items)) (removed above m.items) in
    let total = ap (λ t. sub_total_cost t (removed above m.items)) (step ∙ ap pos parts) ∙ rest in
    let found = remove_nonce-bool l.txs tx.nonce tx h in
    elim (Bool-cases l.strict) [
      | inl f ↦
          rw (found, f, remove_tx)
            (record {
              total = rw (left, gone) total;
              once = rw left (kept-IsDistinct above m.items w.once);
              indexed = filter_reheap-IsIndexed above m w.once w.indexed;
              complete = filter_reheap_complete above m w.complete;
            })
      | inr f ↦
          rw (found, f, remove_tx)
            (record { total = step; once = w.once; indexed = w.indexed; complete = w.complete })
    ]

filter_invalids-items :
    (l : TxList) (cost_limit gas_limit : ℕ) (m : SortedMap) (gone : List Transaction)
    → IsDistinct m.items
    → IsIndexed m.items m.index
    → length m.index ≡ length m.items
    → IsDistinct (filter_invalids l cost_limit gas_limit m gone).0.txs.items
      × IsIndexed
          (filter_invalids l cost_limit gas_limit m gone).0.txs.items
          (filter_invalids l cost_limit gas_limit m gone).0.txs.index
      × (length (filter_invalids l cost_limit gas_limit m gone).0.txs.index
          ≡ length (filter_invalids l cost_limit gas_limit m gone).0.txs.items)
unfolding filter_invalids filter_items reheap
filter_invalids-items l cost_limit gas_limit m [] d i e = (d, i, e)
filter_invalids-items l cost_limit gas_limit m (tx ∷ gone) d i e =
    let above = λ (other : Transaction). ltb (lowest_nonce max_nonce (tx ∷ gone)) other.nonce in
    let once = kept-IsDistinct above m.items d in
    elim (Bool-cases l.strict) [
      | inl f ↦ rw f (once, reheap_index-IsIndexed (kept above m.items) once, length-reheap_index _)
      | inr f ↦ rw f (d, reheap_index-IsIndexed m.items d, length-reheap_index m.items)
    ]

-- `Filter` keeps a list sound.
pub filter_list-IsSound :
    (l : TxList) (cost_limit gas_limit : ℕ)
    → IsSound l
    → IsSound (filter_list l cost_limit gas_limit).0
unfolding filter_list
filter_list-IsSound l cost_limit gas_limit s =
    let p = is_unaffordable cost_limit gas_limit in
    let total = filter_list-HasTotal l cost_limit gas_limit s.total in
    let (left, gone) = filter_reheap-kept p l.txs in
    let once : IsDistinct (filter_reheap p l.txs).0.items =
      rw left (kept-IsDistinct p l.txs.items s.once) in
    let (d, i, full) =
      filter_invalids-items l cost_limit gas_limit (filter_reheap p l.txs).0
        (filter_reheap p l.txs).1 once (filter_reheap-IsIndexed p l.txs s.once s.indexed)
        (filter_reheap_complete p l.txs s.complete) in
    elim (Bool-cases (leb l.costcap cost_limit && leb l.gascap gas_limit)) [
      | inl e ↦ rw (e, filter_list) s
      | inr e ↦
          let total' = rw (e, filter_list) at total in
          rw (e, filter_list) (record { total = total'; once = d; indexed = i; complete = full })
    ]
