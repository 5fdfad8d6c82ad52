-- ===== src/Pool/Listed.antt =====
-- What adding and removing do to the list of one account, and to the view of all lists.
use pangu.Prelude.{
  ℕ, ◌≡◌, refl, sym, ap, ◌∙◌, subst, ◌⊎◌, inl, inr, Bool, true, false, none, some, List, [], ◌∷◌,
  ◌++◌, ◌==◌, ==_iff, if◌then◌else◌, ltb, leb, ◌&&◌, All-imp, Bool-cases, Option-cases, lookup,
  insert, delete,
}
use pangu.Message.{Transaction}
use pangu.TxList.{
  SortedMap, TxList, get_tx, put, accept, add_tx, is_underpriced, remove_nonce, remove_tx, kept,
  filter_list, filter_invalids, filter_items, reheap, is_unaffordable, lowest_nonce, max_nonce,
  removed, filter_reheap,
}
use pangu.TxList.Cost.{filter_reheap-kept}
use pangu.TxList.Ready.Total.{IsDistinct, IsSound, delete-IsDistinct}
use pangu.TxList.Sound.{kept-IsDistinct, remove_tx-IsSound}
use pangu.Pool.Places.{View, place, IsSpread, IsElsewhere}
use pangu.TxList.Sound.Pops.{IsKeyed}
use pangu.Pool.Taken.{
  Items, HasNonces, HasOtherNonce, Loses, Left, delete-Loses, kept-Loses, Loses-trans, Loses-none,
}
use pangu.Pool.Moves.{Takes}
use pangu.Pool.Keep.{with_items}

-- `Remove` of a transaction that is in the list.
pub record Removes (l : TxList) (tx : Transaction) (r : TxList × Bool × List Transaction)
    : Type 0 where
  pub found : r.1 ≡ true
  pub loses : Loses l.txs.items r.0.txs.items (tx ∷ r.2)
  pub sound : IsSound r.0
  pub same_mode : r.0.strict ≡ l.strict
  pub lax : l.strict ≡ false → r.2 ≡ []

remove_nonce-found :
    (m : SortedMap) (nonce : ℕ) (tx : Transaction)
    → lookup nonce m.items ≡ some tx
    → ((remove_nonce m nonce).0.items ≡ delete nonce m.items) × ((remove_nonce m nonce).1 ≡ true)
unfolding remove_nonce
remove_nonce-found m nonce tx h = (rw (h, remove_nonce) refl, rw (h, remove_nonce) refl)

pub remove_tx-Removes :
    (l : TxList) (tx : Transaction)
    → IsSound l
    → IsKeyed l.txs.items
    → lookup tx.nonce l.txs.items ≡ some tx
    → Removes l tx (remove_tx l tx)
unfolding remove_tx
remove_tx-Removes l tx sl k h =
    let d = sl.once in
    let sound = remove_tx-IsSound l tx sl h in
    let (left, found) = remove_nonce-found l.txs tx.nonce tx h in
    let first = delete-Loses l.txs.items tx h in
    let less = delete-IsDistinct tx.nonce l.txs.items d in
    let keyed = λ (n : ℕ) (t : Transaction) (e : lookup n (delete tx.nonce l.txs.items) ≡ some t).
      k n t (first.was n t e) in
    let above = λ (other : Transaction). ltb tx.nonce other.nonce in
    let (rest, gone) = filter_reheap-kept above (remove_nonce l.txs tx.nonce).0 in
    let second = kept-Loses above (delete tx.nonce l.txs.items) less keyed in
    let both =
      Loses-trans l.txs.items (delete tx.nonce l.txs.items)
        (kept above (delete tx.nonce l.txs.items)) (tx ∷ [])
        (removed above (delete tx.nonce l.txs.items)) first second in
    elim (Bool-cases l.strict) [
      | inl s ↦
          rw (found, s, remove_tx)
            (record {
              found = refl;
              loses = rw (rest, gone, left) both;
              sound = rw (found, s, remove_tx) at sound;
              same_mode = refl;
              lax = λ e. cc;
            })
      | inr s ↦
          rw (found, s, remove_tx)
            (record {
              found = refl;
              loses = rw left first;
              sound = rw (found, s, remove_tx) at sound;
              same_mode = refl;
              lax = λ e. refl;
            })
    ]

-- `Remove` of a transaction whose nonce is free.
pub remove_tx-missing :
    (l : TxList) (tx : Transaction)
    → lookup tx.nonce l.txs.items ≡ none
    → (remove_tx l tx).1 ≡ false
unfolding remove_tx remove_nonce
remove_tx-missing l tx h = rw (h, remove_nonce, remove_tx) refl

pub add_tx-mode :
    (l : TxList) (tx : Transaction) (price_bump : ℕ) → (add_tx l tx price_bump).0.strict ≡ l.strict
unfolding add_tx get_tx accept
add_tx-mode l tx price_bump = elim (Option-cases (lookup tx.nonce l.txs.items)) [
  | inl h ↦ rw (h, add_tx) refl
  | inr (old, h) ↦ elim (Bool-cases (is_underpriced old tx price_bump)) [
    | inl u ↦ rw (h, u, add_tx) refl
    | inr u ↦ rw (h, u, add_tx) refl
  ]
]

-- `Add` at a nonce that is free.
pub add_tx-free :
    (l : TxList) (tx : Transaction) (price_bump : ℕ)
    → lookup tx.nonce l.txs.items ≡ none
    → ((add_tx l tx price_bump).0.txs.items ≡ insert tx.nonce tx l.txs.items)
      × ((add_tx l tx price_bump).1 ≡ true)
      × ((add_tx l tx price_bump).2 ≡ none)
unfolding add_tx get_tx accept put
add_tx-free l tx price_bump h = rw (h, add_tx) (refl, refl, refl)

-- `Add` at a nonce that is taken: a refusal, or the old transaction is replaced.
pub add_tx-taken :
    (l : TxList) (tx old : Transaction) (price_bump : ℕ)
    → lookup tx.nonce l.txs.items ≡ some old
    → (((add_tx l tx price_bump).0 ≡ l) × ((add_tx l tx price_bump).1 ≡ false))
      ⊎ (((add_tx l tx price_bump).0.txs.items ≡ insert tx.nonce tx l.txs.items)
          × ((add_tx l tx price_bump).1 ≡ true)
          × ((add_tx l tx price_bump).2 ≡ some old))
unfolding add_tx get_tx accept put
add_tx-taken l tx old price_bump h = elim (Bool-cases (is_underpriced old tx price_bump)) [
  | inl u ↦ rw (h, u, add_tx) (inl (refl, refl))
  | inr u ↦ rw (h, u, add_tx) (inr (refl, refl, refl))
]

filter_invalids-Loses :
    (l : TxList) (cost_limit gas_limit : ℕ) (m : SortedMap) (gone : List Transaction)
    → IsDistinct m.items
    → IsKeyed m.items
    → ((filter_invalids l cost_limit gas_limit m gone).1 ≡ gone)
      × Loses m.items
          (filter_invalids l cost_limit gas_limit m gone).0.txs.items
          (filter_invalids l cost_limit gas_limit m gone).2
      × ((filter_invalids l cost_limit gas_limit m gone).0.strict ≡ l.strict)
      × (l.strict ≡ false → (filter_invalids l cost_limit gas_limit m gone).2 ≡ [])
unfolding filter_invalids filter_items reheap
filter_invalids-Loses l cost_limit gas_limit m [] d k = (refl, Loses-none m.items, refl, λ e. refl)
filter_invalids-Loses l cost_limit gas_limit m (tx ∷ gone) d k =
    let above = λ (other : Transaction). ltb (lowest_nonce max_nonce (tx ∷ gone)) other.nonce in
    elim (Bool-cases l.strict) [
      | inl f ↦ rw f (refl, kept-Loses above m.items d k, refl, λ e. cc)
      | inr f ↦ rw f (refl, Loses-none m.items, refl, λ e. refl)
    ]

-- `Filter` of a list: what it removes and what it invalidates, none of these if the list is not strict.
pub record Filters (l : TxList) (r : TxList × List Transaction × List Transaction) : Type 0 where
  pub loses : Loses l.txs.items r.0.txs.items (r.1 ++ r.2)
  pub same_mode : r.0.strict ≡ l.strict
  pub lax : l.strict ≡ false → r.2 ≡ []

pub filter_list-Filters :
    (l : TxList) (cost_limit gas_limit : ℕ)
    → IsSound l
    → IsKeyed l.txs.items
    → Filters l (filter_list l cost_limit gas_limit)
unfolding filter_list
filter_list-Filters l cost_limit gas_limit s k =
    let p = is_unaffordable cost_limit gas_limit in
    let (left, gone) = filter_reheap-kept p l.txs in
    let first = kept-Loses p l.txs.items s.once k in
    let m = (filter_reheap p l.txs).0 in
    let loss : Loses l.txs.items m.items (filter_reheap p l.txs).1 = rw (left, gone) first in
    let once : IsDistinct m.items = rw left (kept-IsDistinct p l.txs.items s.once) in
    let (same, second, mode, lax) =
      filter_invalids-Loses l cost_limit gas_limit m (filter_reheap p l.txs).1 once
        (λ n t h. k n t (loss.was n t h)) in
    elim (Bool-cases (leb l.costcap cost_limit && leb l.gascap gas_limit)) [
      | inl e ↦
          rw (e, filter_list)
            (record { loses = Loses-none l.txs.items; same_mode = refl; lax = λ e. refl })
      | inr e ↦
          rw (e, filter_list)
            (record {
              loses =
                  rw same
                    (Loses-trans l.txs.items m.items _ (filter_reheap p l.txs).1 _ loss second);
              same_mode = mode;
              lax = lax;
            })
    ]

module _ (sender : Transaction → ℕ) where
  -- A list that loses transactions, in the view of all lists.
  pub Loses-Takes :
      (v : View) (a : ℕ) (m m' : Items) (gone : List Transaction)
      → ((n : ℕ) → v a n ≡ lookup n m)
      → ((n : ℕ) (t : Transaction) → lookup n m ≡ some t → sender t ≡ a)
      → Loses m m' gone
      → Takes sender v (with_items v a m') gone
  Loses-Takes v a m m' gone at own loses = record {
    kept = λ b n t h. (elim (Bool-cases (a == b)) [
      | inr f ↦ inl (ap (λ c. if c then lookup n m' else v b n) f ∙ h)
      | inl f ↦
          let there : lookup n m ≡ some t =
            sym (at n) ∙ subst (λ i. v i n ≡ some t) (sym ((==_iff a b).0 f)) h in
          elim (loses.stays n t there) [
            | inl e ↦ inl (ap (λ c. if c then lookup n m' else v b n) f ∙ e)
            | inr (e, i) ↦ inr (ap (λ c. if c then lookup n m' else v b n) f ∙ e, i)
          ]
    ]);
    back = λ b n t h. (elim (Bool-cases (a == b)) [
      | inr f ↦ sym (ap (λ c. if c then lookup n m' else v b n) f) ∙ h
      | inl f ↦
          let there = loses.was n t (sym (ap (λ c. if c then lookup n m' else v b n) f) ∙ h) in
          subst (λ i. v i n ≡ some t) ((==_iff a b).0 f) (at n ∙ there)
    ]);
    left =
        All-imp (Left m m')
          (λ t. (place sender v t ≡ some t) × (place sender (with_items v a m') t ≡ none))
          (λ t (h, e).
            let mine = own t.nonce t h in
            (
              subst (λ i. v i t.nonce ≡ some t) (sym mine) (at t.nonce ∙ h),
              ap (λ c. if c then lookup t.nonce m' else v (sender t) t.nonce)
                    ((==_iff a (sender t)).1 (sym mine))
                  ∙ e,
            ))
          gone loses.left;
    different = spread gone loses.different;
  }
    where
      spread : (ts : List Transaction) → HasNonces ts → IsSpread sender ts
      spread [] d = tt
      spread (t ∷ ts) d = (
        All-imp (HasOtherNonce t) (IsElsewhere sender t) (λ u other _ same. other same) ts d.0,
        spread ts d.1,
      )
