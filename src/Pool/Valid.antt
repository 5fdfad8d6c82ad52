-- ===== src/Pool/Valid.antt =====
-- The invariant of the pool, and what takes a transaction in flight keeps.
use mathlib.Core.Path.{fun_ext}
use pangu.Prelude.{
  ℕ, ◌≡◌, refl, sym, ap, ◌∙◌, subst, inl, inr, Bool, true, false, Option, some, List, ◌==◌, ==_iff,
  if◌then◌else◌, arith, Bool-cases, Option-cases, lookup, insert, delete, lookup-insert,
  lookup-delete,
}
use pangu.Message.{Transaction}
use pangu.Lookup as Lookup
use pangu.Lookup.Slots.{IsValid}
use pangu.TxList.{TxList, get_tx, new_list}
use pangu.TxList.Ready.Total.{IsSound}
use pangu.TxList.Sound.{new_list-IsSound}
use pangu.Pool.{LegacyPool, Lists, held, list_or_new, store_list, is_empty, sender}
use pangu.Pool.Places.{View, assign, Consistent}
use pangu.Pool.Taken.{Items}
use pangu.Pool.Keep.{with_items}

-- Lists of one mode, each sound: with its total cost, each nonce once, and the heap of its nonces.
abbrev pub AreLists : Bool → Lists → Type 0
AreLists strict lists =
    (a : ℕ) (l : TxList) → lookup a lists ≡ some l → (l.strict ≡ strict) × IsSound l

-- The pool is consistent but for the transactions in flight: each transaction of a list stands at its
-- sender and nonce and the lookup has it under its hash; no place is both pending and queued; each
-- transaction of the lookup is pending, queued or in flight; the slots of the lookup are counted.
pub record IsConsistent (signer : Transaction → Option ℕ) (p : LegacyPool)
    (flight : List Transaction) : Type 0 where
  pub places : Consistent (sender signer) (held p.pending) (held p.queue) (Lookup.get p.all) flight
  pub pending_lists : AreLists true p.pending
  pub queue_lists : AreLists false p.queue
  pub counted : IsValid p.all

pub held-list_or_new :
    (lists : Lists) (a : ℕ) (strict : Bool) (n : ℕ)
    → held lists a n ≡ lookup n (list_or_new lists a strict).txs.items
unfolding held list_or_new get_tx new_list lookup
held-list_or_new lists a strict n = elim (Option-cases (lookup a lists)) [
  | inl h ↦ rw (h, held, list_or_new) refl
  | inr (l, h) ↦ rw (h, held, list_or_new) refl
]

pub list_or_new-AreLists :
    (lists : Lists) (a : ℕ) (strict : Bool)
    → AreLists strict lists
    → ((list_or_new lists a strict).strict ≡ strict) × IsSound (list_or_new lists a strict)
unfolding list_or_new new_list
list_or_new-AreLists lists a strict ok = elim (Option-cases (lookup a lists)) [
  | inl h ↦ rw (h, list_or_new) (refl, new_list-IsSound strict)
  | inr (l, h) ↦ rw (h, list_or_new) (ok a l h)
]

pub insert-AreLists :
    (strict : Bool) (a : ℕ) (l : TxList) (lists : Lists)
    → l.strict ≡ strict
    → IsSound l
    → AreLists strict lists
    → AreLists strict (insert a l lists)
insert-AreLists strict a l lists s d ok b m h = elim (Bool-cases (a == b)) [
  | inr f ↦
      ok b m (
        sym (ap (λ c. if c then some l else lookup b lists) f)
        ∙ sym (lookup-insert a b l lists)
        ∙ h)
  | inl f ↦
      let e : some l ≡ some m =
        sym (ap (λ c. if c then some l else lookup b lists) f)
        ∙ sym (lookup-insert a b l lists)
        ∙ h in
      let same : l ≡ m = ground arith in subst (λ x. (x.strict ≡ strict) × IsSound x) same (s, d)
]

pub store_list-AreLists :
    (strict : Bool) (a : ℕ) (l : TxList) (lists : Lists)
    → l.strict ≡ strict
    → IsSound l
    → AreLists strict lists
    → AreLists strict (store_list a l lists)
unfolding store_list
store_list-AreLists strict a l lists s d ok = elim (Bool-cases (is_empty l)) [
  | inr f ↦ rw (f, store_list) (insert-AreLists strict a l lists s d ok)
  | inl f ↦ rw (f, store_list) (λ b m h. ok b m (kept b m h))
]
  where
    kept : (b : ℕ) (m : TxList) → lookup b (delete a lists) ≡ some m → lookup b lists ≡ some m
    kept b m h = let e = lookup-delete a b lists in ground arith

-- A transaction more in a map, in the view of all lists.
pub with_items-insert :
    (v : View) (a : ℕ) (m : Items) (n : ℕ) (t : Transaction)
    → ((i : ℕ) → v a i ≡ lookup i m)
    → with_items v a (insert n t m) ≡ assign v a n (some t)
with_items-insert v a m n t at = fun_ext λ b. fun_ext λ i. (elim (Bool-cases (a == b)) [
  | inr f ↦ ground arith
  | inl f ↦
      let same : v b i ≡ lookup i m = subst (λ c. v c i ≡ lookup i m) ((==_iff a b).0 f) (at i) in
      ground (arith, lookup-insert n i t m)
])
