-- ===== src/Pool/Add/Enqueue.antt =====
-- `enqueueTx` of a transaction that the pool does not know, as `add` calls it.
use pangu.Prelude.{
  ℕ, ◌≡◌, sym, ◌∙◌, inl, inr, Bool, false, Option, none, some, [], arith, Option-cases, insert,
}
use pangu.Message.{Transaction}
use pangu.Validation.{Received}
use pangu.Lookup as Lookup
use pangu.Lookup.{contains_tx, remote_to_locals}
use pangu.Lookup.Slots.{add-IsValid}
use pangu.TxList.{add_tx}
use pangu.Pool.{LegacyPool, Lists, held, list_or_new, sender, enqueue_tx, forget, enter}
use pangu.Pool.Places.{swap}
use pangu.Pool.Keep.{get-add, held-insert, with_items-same}
use pangu.Pool.Listed.{add_tx-free, add_tx-taken}
use pangu.Pool.Valid.{IsConsistent, held-list_or_new, list_or_new-AreLists, insert-AreLists}
use pangu.Pool.Flight.{put_view, put_lists}
use pangu.Pool.Enter.{fresh, replaced, forget-add}

-- A list stored again as it was.
put_same :
    (lists : Lists) (a : ℕ) (strict : Bool)
    → held (insert a (list_or_new lists a strict) lists) ≡ held lists
put_same lists a strict =
    held-insert a (list_or_new lists a strict) lists
    ∙ with_items-same (held lists) a (list_or_new lists a strict).txs.items
        (held-list_or_new lists a strict)

module _ (signer : Transaction → Option ℕ) (price_bump now : ℕ) where
  -- `enqueueTx` of a transaction that the pool does not know, at a place that is not pending.
  abbrev pub Queued : Received → LegacyPool × Option Bool → Type 0
  Queued r (p, none) = IsConsistent signer p [] × (Lookup.get p.all r.tx.hash ≡ none)
  Queued r (p, some replaced) = IsConsistent signer p [] × (Lookup.get p.all r.tx.hash ≡ some r)

  enqueue_fresh :
      (p : LegacyPool) (r : Received) (local : Bool)
      → IsConsistent signer p []
      → Lookup.get p.all r.tx.hash ≡ none
      → held p.pending (sender signer r.tx) r.tx.nonce ≡ none
      → held p.queue (sender signer r.tx) r.tx.nonce ≡ none
      → Queued r (enqueue_tx signer price_bump now p r.tx (some (r, local)))
  unfolding enqueue_tx forget enter
  enqueue_fresh p r local c new not_pending not_queued =
      let from = sender signer r.tx in
      let l = list_or_new p.queue from false in
      let (items, inserted, old) =
        add_tx-free l r.tx price_bump
          (sym (held-list_or_new p.queue from false r.tx.nonce) ∙ not_queued) in
      let there = put_view p.queue from false (add_tx l r.tx price_bump).0 r.tx.nonce r.tx items in
      rw (inserted, old, enqueue_tx)
        (
          record {
            places =
                rw (there, get-add p.all r local new)
                  (swap (sender signer) _ _ _ [] (
                    fresh (sender signer) (held p.queue) (held p.pending) (Lookup.get p.all) r
                      not_queued not_pending new (swap (sender signer) _ _ _ [] c.places)));
            pending_lists = c.pending_lists;
            queue_lists = put_lists p.queue from false r.tx price_bump c.queue_lists;
            counted = add-IsValid p.all r local new c.counted;
          },
          rw (get-add p.all r local new) (ground arith),
        )

  enqueue_taken :
      (p : LegacyPool) (r : Received) (local : Bool) (old : Transaction)
      → IsConsistent signer p []
      → Lookup.get p.all r.tx.hash ≡ none
      → held p.queue (sender signer r.tx) r.tx.nonce ≡ some old
      → Queued r (enqueue_tx signer price_bump now p r.tx (some (r, local)))
  unfolding enqueue_tx forget enter
  enqueue_taken p r local old c new there =
      let from = sender signer r.tx in
      let l = list_or_new p.queue from false in
      let (mode, once) = list_or_new-AreLists p.queue from false c.queue_lists in
      elim (add_tx-taken l r.tx old price_bump
        (sym (held-list_or_new p.queue from false r.tx.nonce) ∙ there)) [
          | inl (same, refusal) ↦
              rw (refusal, enqueue_tx)
                (
                  record {
                    places = rw (same, put_same p.queue from false) c.places;
                    pending_lists = c.pending_lists;
                    queue_lists =
                        rw same (insert-AreLists false from l p.queue mode once c.queue_lists);
                    counted = c.counted;
                  },
                  new,
                )
          | inr (items, inserted, was) ↦
              let (view, counted) = forget-add p.all old r local c.counted new in
              let at =
                put_view p.queue from false (add_tx l r.tx price_bump).0 r.tx.nonce r.tx items in
              rw (inserted, was, enqueue_tx)
                (
                  record {
                    places =
                        rw (at, view)
                          (swap (sender signer) _ _ _ [] (
                            replaced (sender signer) (held p.queue) (held p.pending)
                              (Lookup.get p.all) r old there new
                              (swap (sender signer) _ _ _ [] c.places)));
                    pending_lists = c.pending_lists;
                    queue_lists = put_lists p.queue from false r.tx price_bump c.queue_lists;
                    counted = counted;
                  },
                  rw view (ground arith),
                )
        ]

  pub enqueue_tx-Queued :
      (p : LegacyPool) (r : Received) (local : Bool)
      → IsConsistent signer p []
      → Lookup.get p.all r.tx.hash ≡ none
      → held p.pending (sender signer r.tx) r.tx.nonce ≡ none
      → Queued r (enqueue_tx signer price_bump now p r.tx (some (r, local)))
  enqueue_tx-Queued p r local c new free =
      elim (Option-cases (held p.queue (sender signer r.tx) r.tx.nonce)) [
        | inl e ↦ enqueue_fresh p r local c new free e
        | inr (old, e) ↦ enqueue_taken p r local old c new e
      ]
