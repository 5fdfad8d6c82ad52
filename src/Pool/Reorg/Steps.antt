-- ===== src/Pool/Reorg/Steps.antt =====
-- One step of a reorganisation: a list that loses transactions, and what becomes of these.
use pangu.Prelude.{
  ℕ, ◌≡◌, refl, sym, ap, ◌∙◌, subst, true, false, Option, some, List, [], ◌∷◌, ◌++◌, append-nil,
  ==_iff, if◌then◌else◌, lookup, insert, lookup-insert, All,
}
use pangu.Message.{Transaction}
use pangu.Lookup as Lookup
use pangu.Lookup.Slots.{remove-IsValid}
use pangu.TxList.{TxList}
use pangu.TxList.Ready.Total.{IsSound}
use pangu.Pool.{LegacyPool, Lists, held, sender, promote_tx}
use pangu.Pool.Places.{swap}
use pangu.Pool.Moves.{take_out, discard}
use pangu.Pool.Taken.{Loses}
use pangu.Pool.Keep.{with_items, held-insert, get-remove}
use pangu.Pool.Valid.{IsConsistent, insert-AreLists}
use pangu.Pool.Flight.{promote_tx-IsConsistent}
use pangu.Pool.Remove.{list-Takes}
use pangu.Pool.Reorg.{Head, forget_all, drop_queued, drop_pending, promote_all}

pub lookup-insert_same : (a : ℕ) (l : TxList) (lists : Lists) → lookup a (insert a l lists) ≡ some l
lookup-insert_same a l lists =
    lookup-insert a a l lists ∙ ap (λ c. if c then some l else lookup a lists) ((==_iff a a).1 refl)

module _ (signer : Transaction → Option ℕ) where
  pub queue_step :
      (p : LegacyPool) (a : ℕ) (l m : TxList) (gone : List Transaction)
      → IsConsistent signer p []
      → lookup a p.queue ≡ some l
      → Loses l.txs.items m.txs.items gone
      → m.strict ≡ l.strict
      → IsSound m
      → IsConsistent signer (record p { queue = insert a m p.queue }) gone
  queue_step p a l m gone c e loses mode sound =
      let s = sender signer in
      let takes =
        list-Takes signer p.queue (Lookup.get p.all) a l m.txs.items gone e c.places.listed_too
          loses in
      record {
        places = rw (held-insert a m p.queue) (
            swap s _ _ (Lookup.get p.all) gone (
              take_out s (held p.queue) (with_items (held p.queue) a m.txs.items) (held p.pending)
                (Lookup.get p.all) gone takes (swap s _ _ (Lookup.get p.all) [] c.places)));
        pending_lists = c.pending_lists;
        queue_lists =
            insert-AreLists false a m p.queue (mode ∙ (c.queue_lists a l e).0) sound c.queue_lists;
        counted = c.counted;
      }

  pub pending_step :
      (p : LegacyPool) (a : ℕ) (l m : TxList) (gone : List Transaction)
      → IsConsistent signer p []
      → lookup a p.pending ≡ some l
      → Loses l.txs.items m.txs.items gone
      → m.strict ≡ l.strict
      → IsSound m
      → IsConsistent signer (record p { pending = insert a m p.pending }) gone
  pending_step p a l m gone c e loses mode sound =
      let s = sender signer in
      let takes =
        list-Takes signer p.pending (Lookup.get p.all) a l m.txs.items gone e c.places.listed
          loses in
      record {
        places = rw (held-insert a m p.pending) (
            take_out s (held p.pending) (with_items (held p.pending) a m.txs.items) (held p.queue)
              (Lookup.get p.all) gone takes c.places);
        pending_lists =
            insert-AreLists true a m p.pending (mode ∙ (c.pending_lists a l e).0) sound
              c.pending_lists;
        queue_lists = c.queue_lists;
        counted = c.counted;
      }

  pub forget_all-IsConsistent :
      (p : LegacyPool) (xs ys : List Transaction)
      → IsConsistent signer p (xs ++ ys)
      → IsConsistent signer (record p { all = forget_all p.all xs }) ys
  unfolding forget_all
  forget_all-IsConsistent p [] ys c = record {
    places = c.places;
    pending_lists = c.pending_lists;
    queue_lists = c.queue_lists;
    counted = c.counted;
  }
  forget_all-IsConsistent p (tx ∷ xs) ys c =
      forget_all-IsConsistent (record p { all = Lookup.remove p.all tx.hash }) xs ys
        (record {
          places = rw (get-remove p.all tx.hash) (
              discard (sender signer) (held p.pending) (held p.queue) (Lookup.get p.all) tx
                (xs ++ ys) c.places);
          pending_lists = c.pending_lists;
          queue_lists = c.queue_lists;
          counted = remove-IsValid p.all tx.hash c.counted;
        })

  -- What left the queue, or a pending list, for good.
  pub drop_queued-IsConsistent :
      (p : LegacyPool) (a : ℕ) (l m : TxList) (gone : List Transaction)
      → IsConsistent signer p []
      → lookup a p.queue ≡ some l
      → Loses l.txs.items m.txs.items gone
      → m.strict ≡ l.strict
      → IsSound m
      → IsConsistent signer (drop_queued p a m gone) []
  unfolding drop_queued
  drop_queued-IsConsistent p a l m gone c e loses mode sound =
      forget_all-IsConsistent (record p { queue = insert a m p.queue }) gone []
        (subst (IsConsistent signer (record p { queue = insert a m p.queue }))
          (sym (append-nil gone)) (queue_step p a l m gone c e loses mode sound))

  pub drop_pending-IsConsistent :
      (p : LegacyPool) (a : ℕ) (l m : TxList) (gone invalids : List Transaction)
      → IsConsistent signer p []
      → lookup a p.pending ≡ some l
      → Loses l.txs.items m.txs.items (gone ++ invalids)
      → m.strict ≡ l.strict
      → IsSound m
      → IsConsistent signer (drop_pending p a m gone) invalids
  unfolding drop_pending
  drop_pending-IsConsistent p a l m gone invalids c e loses mode sound =
      forget_all-IsConsistent (record p { pending = insert a m p.pending }) gone invalids
        (pending_step p a l m (gone ++ invalids) c e loses mode sound)

  module _ (price_bump account_queue now : ℕ) where
    -- Every executable transaction is promoted.
    pub promote_all-IsConsistent :
        (head : Head) (p : LegacyPool) (a : ℕ) (ts : List Transaction)
        → IsConsistent signer p ts
        → All (λ t. sender signer t ≡ a) ts
        → IsConsistent signer (promote_all signer price_bump account_queue now head p a ts).0 []
          × ((promote_all signer price_bump account_queue now head p a ts).1 ≡ ts)
          × ((promote_all signer price_bump account_queue now head p a ts).0.queue ≡ p.queue)
    unfolding promote_all
    promote_all-IsConsistent head p a [] c own = (c, refl, refl)
    promote_all-IsConsistent head p a (tx ∷ ts) c own =
        let (d, inserted, kept) = promote_tx-IsConsistent signer price_bump now p tx ts c in
        let P = λ (b : ℕ).
          IsConsistent signer (promote_tx signer price_bump now p b tx).0 ts
          × ((promote_tx signer price_bump now p b tx).1 ≡ true)
          × ((promote_tx signer price_bump now p b tx).0.queue ≡ p.queue) in
        let (d', inserted', kept') = subst P own.0 (d, inserted, kept) in
        let (e, all, same) =
          promote_all-IsConsistent head (promote_tx signer price_bump now p a tx).0 a ts d' own.1 in
        (e, rw inserted' (ap (◌∷◌ tx) all), same ∙ kept')
