-- ===== src/Pool/Flight.antt =====
-- Transactions in flight that go into the queue or the pending list of their sender.
use pangu.Prelude.{
  ℕ, ◌≡◌, refl, sym, ap, ◌∙◌, Bool, true, false, Option, none, some, List, [], ◌∷◌, lookup, insert,
}
use pangu.Message.{Transaction}
use pangu.TxList.{TxList, add_tx}
use pangu.TxList.Sound.{add_tx-IsSound}
use pangu.Pool.{
  LegacyPool, Lists, held, list_or_new, sender, enqueue_tx, promote_tx, postpone, forget, enter,
}
use pangu.Pool.Places.{assign, swap, land}
use pangu.Pool.Keep.{with_items, held-insert}
use pangu.Pool.Listed.{add_tx-free, add_tx-mode}
use pangu.Pool.Valid.{
  AreLists, IsConsistent, held-list_or_new, list_or_new-AreLists, insert-AreLists,
  with_items-insert,
}

-- A list with one transaction more, stored again.
pub put_view :
    (lists : Lists) (a : ℕ) (strict : Bool) (l : TxList) (n : ℕ) (t : Transaction)
    → l.txs.items ≡ insert n t (list_or_new lists a strict).txs.items
    → held (insert a l lists) ≡ assign (held lists) a n (some t)
put_view lists a strict l n t e =
    held-insert a l lists
    ∙ ap (with_items (held lists) a) e
    ∙ with_items-insert (held lists) a (list_or_new lists a strict).txs.items n t
        (held-list_or_new lists a strict)

pub put_lists :
    (lists : Lists) (a : ℕ) (strict : Bool) (tx : Transaction) (price_bump : ℕ)
    → AreLists strict lists
    → AreLists strict (insert a (add_tx (list_or_new lists a strict) tx price_bump).0 lists)
put_lists lists a strict tx price_bump ok =
    let (mode, sound) = list_or_new-AreLists lists a strict ok in
    insert-AreLists strict a (add_tx (list_or_new lists a strict) tx price_bump).0 lists
      (add_tx-mode (list_or_new lists a strict) tx price_bump ∙ mode)
      (add_tx-IsSound (list_or_new lists a strict) tx price_bump sound) ok

module _ (signer : Transaction → Option ℕ) (price_bump now : ℕ) where
  pub enqueue_tx-IsConsistent :
      (p : LegacyPool) (tx : Transaction) (ts : List Transaction)
      → IsConsistent signer p (tx ∷ ts)
      → IsConsistent signer (enqueue_tx signer price_bump now p tx none).0 ts
        × ((enqueue_tx signer price_bump now p tx none).1 ≡ some false)
        × ((enqueue_tx signer price_bump now p tx none).0.all ≡ p.all)
        × ((enqueue_tx signer price_bump now p tx none).0.pending ≡ p.pending)
  unfolding enqueue_tx forget enter
  enqueue_tx-IsConsistent p tx ts c =
      let from = sender signer tx in
      let l = list_or_new p.queue from false in
      let free : lookup tx.nonce l.txs.items ≡ none =
        sym (held-list_or_new p.queue from false tx.nonce) ∙ c.places.flying.0.1.1 in
      let (items, inserted, old) = add_tx-free l tx price_bump free in
      let there = put_view p.queue from false (add_tx l tx price_bump).0 tx.nonce tx items in
      rw (inserted, old, enqueue_tx)
        (
          record {
            places = rw there (
                swap (sender signer) _ _ _ ts (
                  land (sender signer) _ _ _ tx ts
                    (swap (sender signer) _ _ _ (tx ∷ ts) c.places)));
            pending_lists = c.pending_lists;
            queue_lists = put_lists p.queue from false tx price_bump c.queue_lists;
            counted = c.counted;
          },
          refl,
          refl,
          refl,
        )

  pub promote_tx-IsConsistent :
      (p : LegacyPool) (tx : Transaction) (ts : List Transaction)
      → IsConsistent signer p (tx ∷ ts)
      → IsConsistent signer (promote_tx signer price_bump now p (sender signer tx) tx).0 ts
        × ((promote_tx signer price_bump now p (sender signer tx) tx).1 ≡ true)
        × ((promote_tx signer price_bump now p (sender signer tx) tx).0.queue ≡ p.queue)
  unfolding promote_tx forget
  promote_tx-IsConsistent p tx ts c =
      let from = sender signer tx in
      let l = list_or_new p.pending from true in
      let free : lookup tx.nonce l.txs.items ≡ none =
        sym (held-list_or_new p.pending from true tx.nonce) ∙ c.places.flying.0.1.0 in
      let (items, inserted, old) = add_tx-free l tx price_bump free in
      let there = put_view p.pending from true (add_tx l tx price_bump).0 tx.nonce tx items in
      rw (inserted, old, promote_tx)
        (
          record {
            places = rw there (land (sender signer) _ _ _ tx ts c.places);
            pending_lists = put_lists p.pending from true tx price_bump c.pending_lists;
            queue_lists = c.queue_lists;
            counted = c.counted;
          },
          refl,
          refl,
        )

  pub postpone-IsConsistent :
      (p : LegacyPool) (ts : List Transaction)
      → IsConsistent signer p ts
      → IsConsistent signer (postpone signer price_bump now p ts) []
        × ((postpone signer price_bump now p ts).all ≡ p.all)
        × ((postpone signer price_bump now p ts).pending ≡ p.pending)
  unfolding postpone
  postpone-IsConsistent p [] c = (c, refl, refl)
  postpone-IsConsistent p (tx ∷ ts) c =
      let (d, _, same, kept) = enqueue_tx-IsConsistent p tx ts c in
      let (e, rest, rest_kept) =
        postpone-IsConsistent (enqueue_tx signer price_bump now p tx none).0 ts d in
      (e, rest ∙ same, rest_kept ∙ kept)
