-- ===== src/Pool/Keep.antt =====
-- The lookup and the lists of the pool as views: what each change of them does.
use mathlib.Core.Path.{fun_ext}
use pangu.Prelude.{
  ℕ, ◌≡◌, sym, ap, ◌∙◌, subst, inl, inr, Bool, true, false, none, some, [], ◌==◌, ==_iff,
  if◌then◌else◌, arith, Bool-cases, lookup, insert, lookup-insert, lookup-delete,
}
use pangu.Validation.{Received}
use pangu.Lookup as Lookup
use pangu.TxList.{TxList, get_tx}
use pangu.Pool.{Lists, held, is_empty, store_list}
use pangu.Pool.Places.{View, known_as}
use pangu.Pool.Taken.{Items}

pub get-remove :
    (l : Lookup.Lookup) (hash : ℕ)
    → Lookup.get (Lookup.remove l hash) ≡ known_as (Lookup.get l) hash none
unfolding Lookup.get Lookup.remove
get-remove l hash =
    fun_ext λ h. ground (arith, lookup-delete hash h l.locals, lookup-delete hash h l.remotes)

pub get-add :
    (l : Lookup.Lookup) (r : Received) (local : Bool)
    → Lookup.get l r.tx.hash ≡ none
    → Lookup.get (Lookup.add l r local) ≡ known_as (Lookup.get l) r.tx.hash (some r)
unfolding Lookup.get Lookup.add
get-add l r true new = fun_ext λ h. ground (arith, lookup-insert r.tx.hash h r l.locals)
get-add l r false new = fun_ext λ h. (elim (Bool-cases (r.tx.hash == h)) [
  | inl f ↦
      let same : r.tx.hash ≡ h = (==_iff r.tx.hash h).0 f in
      let there : Lookup.get l h ≡ none = subst (λ i. Lookup.get l i ≡ none) same new in
      ground (arith, lookup-insert r.tx.hash h r l.remotes)
  | inr f ↦ ground (arith, lookup-insert r.tx.hash h r l.remotes)
])

-- A view of one map in place of the lists of an account.
abbrev pub with_items : View → ℕ → Items → View
with_items v a m b n = if a == b then lookup n m else v b n

-- The items that are there already.
pub with_items-same :
    (v : View) (a : ℕ) (m : Items) → ((n : ℕ) → v a n ≡ lookup n m) → with_items v a m ≡ v
with_items-same v a m at = fun_ext λ b. fun_ext λ n. (elim (Bool-cases (a == b)) [
  | inr f ↦ ap (λ c. if c then lookup n m else v b n) f
  | inl f ↦
      ap (λ c. if c then lookup n m else v b n) f ∙ sym (at n) ∙ ap (λ i. v i n) ((==_iff a b).0 f)
])

pub held-insert :
    (a : ℕ) (l : TxList) (lists : Lists)
    → held (insert a l lists) ≡ with_items (held lists) a l.txs.items
unfolding held get_tx
held-insert a l lists = fun_ext λ b. fun_ext λ n. ground (arith, lookup-insert a b l lists)

empty_items : (l : TxList) → is_empty l ≡ true → l.txs.items ≡ []
unfolding is_empty
empty_items l h = ground arith

pub held-store_list :
    (a : ℕ) (l : TxList) (lists : Lists)
    → held (store_list a l lists) ≡ with_items (held lists) a l.txs.items
unfolding store_list held get_tx lookup
held-store_list a l lists = elim (Bool-cases (is_empty l)) [
  | inr f ↦ rw f (held-insert a l lists)
  | inl f ↦
      let none_left = empty_items l f in
      rw f (
        fun_ext λ b. fun_ext λ n. (elim (Bool-cases (a == b)) [
          | inl g ↦ ground (arith, lookup-delete a b lists)
          | inr g ↦ ground (arith, lookup-delete a b lists)
        ]))
]
