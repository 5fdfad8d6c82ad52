-- ===== src/Pool/Add.antt =====
-- core/txpool/legacypool/legacypool.go: `add`, `addTxsLocked` and `addTxs`, and what is asked by hash.
-- The state that the nonces and the balances come from, and what the heap of prices answers in one call
-- of `add`, are parameters. The count of slots is not negative (Lookup.Slots).
pub mod Enqueue
pub mod Invariant
pub mod Batch
use pangu.Prelude.{
  ℕ, ◌+◌, ◌-◌, ◌/◌, Bool, true, false, not, ◌&&◌, ◌||◌, Option, none, some, List, [], ◌∷◌, ltb,
  if◌then◌else◌, contains, lookup, insert,
}
use pangu.Prelude.Int.{ℤ, pos, ◌+ℤ◌, ◌-ℤ◌, ltb_ℤ}
use pangu.Message.{Transaction}
use pangu.StateObject.{Database}
use pangu.StateDb.{State}
use pangu.Validation.{PoolError, Received, validate_tx, validate_tx_basics}
use pangu.Lookup as Lookup
use pangu.Lookup.{num_slots, contains_tx, remote_to_locals}
use pangu.TxList.{get_tx, add_tx}
use pangu.Pool.{
  LegacyPool, Config, Prices, AddError, already_known, invalid, underpriced_tx, tx_pool_overflow,
  future_replace_pending, replace_underpriced, Added, added, refused, held, is_some, list_or_new,
  forget, sender, is_gapped, replaces_pending, enqueue_tx, kick_out,
}

module _ (db : Database) (st : State) (signer : Transaction → Option ℕ) (config : Config)
    (now : ℕ) where
  -- The part of `add` that replaces a pending transaction.
  unfoldable pub replace_pending : LegacyPool → Received → Bool → LegacyPool × Added
  unfolding sender list_or_new add_tx insert forget Lookup.add
  replace_pending p r is_local =
      let from = sender signer r.tx in
      let (l, inserted, old) = add_tx (list_or_new p.pending from true) r.tx config.price_bump in
      if inserted
      then (
        record p {
          pending = insert from l p.pending;
          all = Lookup.add (forget p.all old) r is_local;
          beats = insert from now p.beats;
        },
        added (is_some old),
      )
      else (p, refused replace_underpriced)

  -- `if local && !pool.locals.contains(from)`: a new local account, whose transactions become local.
  unfoldable pub mark_local : LegacyPool → ℕ → Bool → LegacyPool
  unfolding remote_to_locals
  mark_local p from local =
      if local && not (contains p.locals from)
      then record p {
        locals = from ∷ p.locals;
        all = (remote_to_locals signer (from ∷ p.locals) p.all).0;
      }
      else p

  -- The part of `add` that puts the transaction into the queue.
  unfoldable pub add_queued : LegacyPool → Received → Bool → Bool → LegacyPool × Added
  unfolding sender enqueue_tx mark_local
  add_queued p r local is_local =
      let (q, result) = enqueue_tx signer config.price_bump now p r.tx (some (r, is_local)) in
      elim result [
        | none ↦ (q, refused replace_underpriced)
        | some replaced ↦ (mark_local q (sender signer r.tx) local, added replaced)
      ]

  -- The part of `add` after a full pool has made room.
  unfoldable pub insert_tx : LegacyPool → Received → Bool → Bool → LegacyPool × Added
  unfolding sender held replace_pending add_queued
  insert_tx p r local is_local =
      if is_some (held p.pending (sender signer r.tx) r.tx.nonce)
      then replace_pending p r is_local
      else add_queued p r local is_local

  -- A full pool: the error, or what is dropped to make room, with the pool whose nonces were fetched.
  unfoldable pub make_room :
      LegacyPool → Received → Bool → Prices → LegacyPool × Option AddError × List Transaction
  unfolding num_slots sender is_gapped replaces_pending
  make_room p r is_local prices =
      let total = config.global_slots + config.global_queue in
      let (drop, success) =
        prices.discard (p.all.slots -ℤ pos total +ℤ pos (num_slots r)) is_local in
      let (gapped, nonces) = is_gapped signer p (sender signer r.tx) r.tx in
      let q = if is_local then p else record p { pending_nonces = nonces } in
      if not is_local && prices.underpriced r.tx
      then (p, some underpriced_tx, [])
      else if ltb (config.global_slots / 4) p.changes_since_reorg
      then (p, some tx_pool_overflow, [])
      else if not is_local && not success
      then (p, some tx_pool_overflow, [])
      else if not is_local && gapped && replaces_pending signer p.pending drop
      then (q, some future_replace_pending, [])
      else (q, none, drop)

  -- The part of `add` after the validation.
  unfoldable pub add_valid : LegacyPool → Received → Bool → Bool → Prices → LegacyPool × Added
  unfolding num_slots make_room kick_out insert_tx
  add_valid p r local is_local prices =
      let total = config.global_slots + config.global_queue in
      let (q, error, drop) = make_room p r is_local prices in
      if ltb_ℤ (pos total) (p.all.slots +ℤ pos (num_slots r))
      then elim error [
        | some e ↦ (q, refused e)
        | none ↦ insert_tx (kick_out signer config.price_bump now q drop) r local is_local
      ]
      else insert_tx p r local is_local

  -- `add`
  unfoldable pub add : LegacyPool → Received → Bool → Prices → LegacyPool × Added
  unfolding Lookup.get contains_tx validate_tx lookup add_valid
  add p r local prices =
      let is_local = local || contains_tx signer p.locals r.tx in
      elim (Lookup.get p.all r.tx.hash) [
        | some known ↦ (p, refused already_known)
        | none ↦ elim (validate_tx db signer r.tx st (λ a. lookup a p.pending)) [
          | some e ↦ (p, refused (invalid e))
          | none ↦ add_valid p r local is_local prices
        ]
      ]

  -- `dirty.addTx(tx)`
  unfoldable pub add_dirty : List ℕ → Transaction → List ℕ
  add_dirty dirty tx = elim (signer tx) [
    | none ↦ dirty
    | some a ↦ if contains dirty a then dirty else a ∷ dirty
  ]

  -- `addTxsLocked`: each transaction with the answers of the heap of prices at its turn; the results in
  -- the order of the transactions, and the accounts whose transactions did not replace one.
  unfoldable pub add_txs_locked :
      LegacyPool → List (Received × Prices) → Bool → LegacyPool × List Added × List ℕ
  unfolding add add_dirty
  add_txs_locked p [] local = (p, [], [])
  add_txs_locked p ((r, prices) ∷ rs) local =
      let (q, result) = add p r local prices in
      let (final, results, dirty) = add_txs_locked q rs local in
      (final, result ∷ results, elim result [ added false ↦ add_dirty dirty r.tx | _ ↦ dirty ])
