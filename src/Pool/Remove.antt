-- ===== src/Pool/Remove.antt =====
-- `removeTx` keeps the pool consistent: what follows the removed transaction goes back into the queue.
use mathlib.Core.Path.{fun_ext}
use pangu.Prelude.{
  ℕ, ◌+◌, ◌≡◌, refl, sym, ap, ◌∙◌, subst, ◌⊎◌, inl, inr, Bool, true, false, Option, none, some,
  List, [], ◌∷◌, ◌==◌, ==_iff, if◌then◌else◌, Bool-cases, Option-cases, lookup,
}
use pangu.Message.{Transaction}
use pangu.Validation.{Received}
use pangu.Lookup as Lookup
use pangu.Lookup.Slots.{remove-IsValid}
use pangu.TxList.{TxList, get_tx, remove_tx}
use pangu.Pool.{
  LegacyPool, Lists, held, store_list, sender, remove_queued, remove_listed, remove_pool_tx,
  kick_out,
}
use pangu.Pool.Places.{View, known_as, Consistent, Listed, none_apart, swap, Among}
use pangu.Pool.Moves.{Takes, take_out, discard}
use pangu.TxList.Sound.Pops.{IsKeyed}
use pangu.Pool.Taken.{Items, Loses}
use pangu.Pool.Keep.{with_items, get-remove, held-store_list}
use pangu.Pool.Listed.{Removes, remove_tx-Removes, remove_tx-missing, Loses-Takes}
use pangu.Pool.Valid.{AreLists, IsConsistent, store_list-AreLists}
use pangu.Pool.Flight.{postpone-IsConsistent}

pub held-none : (lists : Lists) (a n : ℕ) → lookup a lists ≡ none → held lists a n ≡ none
unfolding held
held-none lists a n h = rw (h, held) refl

pub held-some :
    (lists : Lists) (a : ℕ) (l : TxList)
    → lookup a lists ≡ some l
    → (n : ℕ) → held lists a n ≡ lookup n l.txs.items
unfolding held get_tx
held-some lists a l h n = rw (h, held) refl

-- The list of an account that has a transaction.
pub list_of :
    (lists : Lists) (a n : ℕ) (t : Transaction)
    → held lists a n ≡ some t
    → (l : TxList) × (lookup a lists ≡ some l)
list_of lists a n t h = elim (Option-cases (lookup a lists)) [
  | inl e ↦ absurd (none_apart (held-none lists a n e) h)
  | inr x ↦ x
]

module _ (signer : Transaction → Option ℕ) where
  pub list-IsKeyed :
      (lists : Lists) (k : ℕ → Option Received) (a : ℕ) (l : TxList)
      → lookup a lists ≡ some l
      → Listed (sender signer) (held lists) k
      → IsKeyed l.txs.items
  list-IsKeyed lists k a l e listed n t h =
      let (x, y, z) = listed a n t (held-some lists a l e n ∙ h) in y

  pub list-Takes :
      (lists : Lists) (k : ℕ → Option Received) (a : ℕ) (l : TxList) (m : Items)
      (gone : List Transaction)
      → lookup a lists ≡ some l
      → Listed (sender signer) (held lists) k
      → Loses l.txs.items m gone
      → Takes (sender signer) (held lists) (with_items (held lists) a m) gone
  list-Takes lists k a l m gone e listed loses =
      Loses-Takes (sender signer) (held lists) a l.txs.items m gone (held-some lists a l e)
        (λ n t h. let (x, y, z) = listed a n t (held-some lists a l e n ∙ h) in x) loses

  -- The list of a transaction without it, and the transaction forgotten.
  without :
      (lists : Lists) (q : View) (all : Lookup.Lookup) (l : TxList) (tx : Transaction)
      → lookup (sender signer tx) lists ≡ some l
      → held lists (sender signer tx) tx.nonce ≡ some tx
      → (strict : Bool) → AreLists strict lists
      → Consistent (sender signer) (held lists) q (Lookup.get all) []
      → Removes l tx (remove_tx l tx)
        × Consistent
            (sender signer)
            (held (store_list (sender signer tx) (remove_tx l tx).0 lists))
            q
            (Lookup.get (Lookup.remove all tx.hash))
            (remove_tx l tx).2
        × AreLists strict (store_list (sender signer tx) (remove_tx l tx).0 lists)
  without lists q all l tx e there strict ok c =
      let a = sender signer tx in
      let (mode, sound) = ok a l e in
      let x =
        remove_tx-Removes l tx sound (list-IsKeyed lists (Lookup.get all) a l e c.listed)
          (sym (held-some lists a l e tx.nonce) ∙ there) in
      let out =
        take_out (sender signer) (held lists)
          (with_items (held lists) a (remove_tx l tx).0.txs.items) q (Lookup.get all)
          (tx ∷ (remove_tx l tx).2)
          (list-Takes lists (Lookup.get all) a l (remove_tx l tx).0.txs.items
            (tx ∷ (remove_tx l tx).2) e c.listed x.loses)
          c in
      (
        x,
        rw (held-store_list a (remove_tx l tx).0 lists, get-remove all tx.hash)
            (discard (sender signer) _ q (Lookup.get all) tx (remove_tx l tx).2 out),
        store_list-AreLists strict a (remove_tx l tx).0 lists (x.same_mode ∙ mode) x.sound ok,
      )

  module _ (price_bump now : ℕ) where
    remove_pending :
        (p : LegacyPool) (tx : Transaction)
        → held p.pending (sender signer tx) tx.nonce ≡ some tx
        → IsConsistent signer p []
        → IsConsistent signer
            (remove_listed signer price_bump now
              (record p { all = Lookup.remove p.all tx.hash })
              (sender signer tx)
              tx).0
            []
          × ((remove_listed signer price_bump now
                (record p { all = Lookup.remove p.all tx.hash })
                (sender signer tx)
                tx).0.all
              ≡ Lookup.remove p.all tx.hash)
    unfolding remove_listed
    remove_pending p tx there c =
        let (l, e) = list_of p.pending (sender signer tx) tx.nonce tx there in
        let (x, places, lists) =
          without p.pending (held p.queue) p.all l tx e there true c.pending_lists c.places in
        let p1 : LegacyPool = record p {
          all = Lookup.remove p.all tx.hash;
          pending = store_list (sender signer tx) (remove_tx l tx).0 p.pending;
        } in
        let d : IsConsistent signer p1 (remove_tx l tx).2 = record {
          places = places;
          pending_lists = lists;
          queue_lists = c.queue_lists;
          counted = remove-IsValid p.all tx.hash c.counted;
        } in
        let (done, same, _) = postpone-IsConsistent signer price_bump now p1 (remove_tx l tx).2 d in
        rw (e, x.found, remove_listed)
          (
            record {
              places = done.places;
              pending_lists = done.pending_lists;
              queue_lists = done.queue_lists;
              counted = done.counted;
            },
            same,
          )

    not_pending :
        (p : LegacyPool) (addr : ℕ) (tx : Transaction)
        → held p.pending addr tx.nonce ≡ none
        → remove_listed signer price_bump now p addr tx
          ≡ (remove_queued signer price_bump now p addr tx, 0)
    unfolding remove_listed
    not_pending p addr tx free = elim (Option-cases (lookup addr p.pending)) [
      | inl e ↦ rw (e, remove_listed) refl
      | inr (l, e) ↦
          let missing =
            remove_tx-missing l tx (sym (held-some p.pending addr l e tx.nonce) ∙ free) in
          rw (e, missing, remove_listed) refl
    ]

    remove_waiting :
        (p : LegacyPool) (tx : Transaction)
        → held p.queue (sender signer tx) tx.nonce ≡ some tx
        → IsConsistent signer p []
        → IsConsistent signer
            (remove_queued signer price_bump now
              (record p { all = Lookup.remove p.all tx.hash })
              (sender signer tx)
              tx)
            []
          × ((remove_queued signer price_bump now
                (record p { all = Lookup.remove p.all tx.hash })
                (sender signer tx)
                tx).all
              ≡ Lookup.remove p.all tx.hash)
    unfolding remove_queued
    remove_waiting p tx there c =
        let (l, e) = list_of p.queue (sender signer tx) tx.nonce tx there in
        let (x, places, lists) =
          without p.queue (held p.pending) p.all l tx e there false c.queue_lists
            (swap (sender signer) _ _ _ [] c.places) in
        let nothing = x.lax (c.queue_lists (sender signer tx) l e).0 in
        rw (e, remove_queued)
          (
            record {
              places =
                  swap (sender signer) _ _ _ []
                    (subst (Consistent (sender signer) _ _ _) nothing places);
              pending_lists = c.pending_lists;
              queue_lists = lists;
              counted = remove-IsValid p.all tx.hash c.counted;
            },
            refl,
          )

    remove_known :
        (p : LegacyPool) (tx : Transaction)
        → (held p.pending (sender signer tx) tx.nonce ≡ some tx)
          ⊎ (held p.queue (sender signer tx) tx.nonce ≡ some tx)
          ⊎ Among tx []
        → IsConsistent signer p []
        → IsConsistent signer
            (remove_listed signer price_bump now
              (record p { all = Lookup.remove p.all tx.hash })
              (sender signer tx)
              tx).0
            []
          × ((remove_listed signer price_bump now
                (record p { all = Lookup.remove p.all tx.hash })
                (sender signer tx)
                tx).0.all
              ≡ Lookup.remove p.all tx.hash)
    remove_known p tx (inl there) c = remove_pending p tx there c
    remove_known p tx (inr (inl there)) c =
        let other = swap (sender signer) _ _ _ [] c.places in
        let free = other.apart (sender signer tx) tx.nonce tx there in
        rw (not_pending (record p { all = Lookup.remove p.all tx.hash }) (sender signer tx) tx free)
          (remove_waiting p tx there c)
    remove_known p tx (inr (inr m)) c = absurd m

    -- `removeTx` keeps a consistent pool consistent, and its lookup forgets the hash that it is
    -- given and no other.
    pub remove_pool_tx-IsConsistent :
        (p : LegacyPool) (hash : ℕ)
        → IsConsistent signer p []
        → IsConsistent signer (remove_pool_tx signer price_bump now p hash).0 []
          × (Lookup.get (remove_pool_tx signer price_bump now p hash).0.all
              ≡ known_as (Lookup.get p.all) hash none)
    unfolding remove_pool_tx
    remove_pool_tx-IsConsistent p hash c = elim (Option-cases (Lookup.get p.all hash)) [
      | inl e ↦ rw (e, remove_pool_tx) (c, unknown e)
      | inr (r, e) ↦
          let (is, there) = c.places.indexed hash r e in
          let (done, same) = remove_known p r.tx there c in
          let forgotten = ap Lookup.get same ∙ get-remove p.all r.tx.hash in
          rw (e, remove_pool_tx)
            (subst
              (λ h.
                IsConsistent signer
                  (remove_listed signer price_bump now (record p { all = Lookup.remove p.all h })
                    (sender signer r.tx) r.tx).0
                  []
                × (Lookup.get
                      (remove_listed signer price_bump now
                        (record p { all = Lookup.remove p.all h }) (sender signer r.tx) r.tx).0.all
                    ≡ known_as (Lookup.get p.all) h none))
              is (done, forgotten))
    ]
      where
        unknown :
            Lookup.get p.all hash ≡ none → Lookup.get p.all ≡ known_as (Lookup.get p.all) hash none
        unknown e = fun_ext λ h. (elim (Bool-cases (hash == h)) [
          | inr f ↦ sym (ap (λ c. if c then none else Lookup.get p.all h) f)
          | inl f ↦
              subst (λ i. Lookup.get p.all i ≡ none) ((==_iff hash h).0 f) e
              ∙ sym (ap (λ c. if c then none else Lookup.get p.all h) f)
        ])

    pub kick_out-IsConsistent :
        (p : LegacyPool) (drop : List Transaction) (hash : ℕ)
        → IsConsistent signer p []
        → Lookup.get p.all hash ≡ none
        → IsConsistent signer (kick_out signer price_bump now p drop) []
          × (Lookup.get (kick_out signer price_bump now p drop).all hash ≡ none)
    unfolding kick_out
    kick_out-IsConsistent p [] hash c new = (c, new)
    kick_out-IsConsistent p (tx ∷ drop) hash c new =
        let (d, view) = remove_pool_tx-IsConsistent p tx.hash c in
        let still : Lookup.get (remove_pool_tx signer price_bump now p tx.hash).0.all hash ≡ none =
          rw (view, new) (either (tx.hash == hash)) in
        let r = remove_pool_tx signer price_bump now p tx.hash in
        kick_out-IsConsistent (record r.0 { changes_since_reorg = r.0.changes_since_reorg + r.1 })
          drop hash
          (record {
            places = d.places;
            pending_lists = d.pending_lists;
            queue_lists = d.queue_lists;
            counted = d.counted;
          })
          still
      where
        nothing : Option Received
        nothing = none

        either : (b : Bool) → (if b then nothing else nothing) ≡ nothing
        either true = refl
        either false = refl
