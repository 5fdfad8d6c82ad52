-- ===== src/Pool.antt =====
-- core/txpool/legacypool/legacypool.go: the pool, that is the lists of executable (pending) and of waiting
-- (queued) transactions by account, the lookup of all transactions, the nonces, the local accounts and
-- the heartbeats. A list that a Go method changes in place is stored again. The priced heap is not
-- modelled: its answers are arguments. So are the clock and, through the signer, the senders. Metrics,
-- the journal on disk, the event feed and the lock are left out.
pub mod Add
pub mod Places
pub mod Reorg
pub mod Run
pub mod Enter
pub mod Remove
pub mod Flight
pub mod Valid
pub mod Listed
pub mod Keep
pub mod Taken
pub mod Moves
use pangu.Prelude.{
  ℕ, ◌+◌, ◌-◌, ◌/◌, ◌*◌, ◌%◌, suc, zero, Bool, true, false, not, ◌&&◌, Option, none, some, List, [],
  ◌∷◌, ltb, leb, ◌==◌, if◌then◌else◌, contains, length, lookup, insert, delete,
}
use pangu.Prelude.Int.{ℤ, pos, ◌+ℤ◌, ◌-ℤ◌, ltb_ℤ}
use pangu.Evm.{u64}
use pangu.Message.{Transaction}
use pangu.StateObject.{Database}
use pangu.StateDb.{State}
use pangu.Validation.{PoolError, Received, validate_tx}
use pangu.Noncer as Noncer
use pangu.Noncer.{set_if_lower}
use pangu.Lookup as Lookup
use pangu.Lookup.{num_slots, contains_tx, remote_to_locals}
use pangu.TxList.{TxList, get_tx, new_list, add_tx, remove_tx}

-- `nil` for an account without a list.
abbrev pub Lists : Type 0
Lists = List (ℕ × TxList)

pub record LegacyPool : Type 0 where
  pub pending : Lists
  pub queue : Lists
  pub all : Lookup.Lookup
  pub pending_nonces : Noncer.Noncer
  pub locals : List ℕ
  pub beats : List (ℕ × ℕ)
  pub changes_since_reorg : ℕ

-- The fields of `Config` that the operations here read.
pub record Config : Type 0 where
  pub price_bump : ℕ
  pub global_slots : ℕ
  pub global_queue : ℕ

-- What the heap of prices answers: `Underpriced`, and `Discard` for a number of slots and the `force`
-- flag.
pub record Prices : Type 0 where
  pub underpriced : Transaction → Bool
  pub discard : ℤ → Bool → List Transaction × Bool

-- The errors of `add`.
pub data AddError : Type 0 where
  already_known : AddError
  invalid : PoolError → AddError
  underpriced_tx : AddError
  tx_pool_overflow : AddError
  future_replace_pending : AddError
  replace_underpriced : AddError

pub data Added : Type 0 where
  added : (replaced : Bool) → Added
  refused : AddError → Added

-- The transaction of an account at a nonce, `lists[a].txs.Get(nonce)` where the list is there.
unfoldable pub held : Lists → ℕ → ℕ → Option Transaction
unfolding lookup get_tx
held lists a nonce = elim (lookup a lists) [ none ↦ none | some l ↦ get_tx l.txs nonce ]

abbrev pub is_some : Option Transaction → Bool
is_some none = false
is_some (some tx) = true

-- `pool.pending[a]` after `if pool.pending[a] == nil`, and the same for the queue.
unfoldable pub list_or_new : Lists → ℕ → Bool → TxList
unfolding lookup new_list
list_or_new lists a strict = elim (lookup a lists) [ none ↦ new_list strict | some l ↦ l ]

-- `Empty`
unfoldable pub is_empty : TxList → Bool
is_empty l = elim l.txs.items [ [] ↦ true | _ ∷ _ ↦ false ]

-- A list stored again, or deleted when it is empty.
unfoldable pub store_list : ℕ → TxList → Lists → Lists
unfolding insert delete is_empty
store_list a l lists = if is_empty l then delete a lists else insert a l lists

-- `if old != nil { pool.all.Remove(old.Hash()) }`
unfoldable pub forget : Lookup.Lookup → Option Transaction → Lookup.Lookup
unfolding Lookup.remove
forget all none = all
forget all (some old) = Lookup.remove all old.hash

-- `if addAll { pool.all.Add(tx, local) }`, with the transaction as received where `addAll` is set.
unfoldable pub enter : Lookup.Lookup → Option (Received × Bool) → Lookup.Lookup
unfolding Lookup.add
enter all none = all
enter all (some (r, local)) = Lookup.add all r local

-- The heartbeat, unless there is one.
unfoldable pub first_beat : ℕ → ℕ → List (ℕ × ℕ) → List (ℕ × ℕ)
unfolding lookup insert
first_beat a now beats = elim (lookup a beats) [ none ↦ insert a now beats | some _ ↦ beats ]

-- The queue holds every nonce from `nonce` on, for `count` nonces.
unfoldable pub fills : TxList → ℕ → ℕ → Bool
unfolding get_tx
fills l zero nonce = true
fills l (suc count) nonce =
    let rest = fills l count (nonce + 1) in if is_some (get_tx l.txs nonce) then rest else false

module _ (signer : Transaction → Option ℕ) where
  -- `types.Sender`, whose address is zero on an error.
  unfoldable pub sender : Transaction → ℕ
  sender tx = elim (signer tx) [ none ↦ 0 | some a ↦ a ]

  -- `isGapped`; the nonce that it asks for is fetched.
  unfoldable pub is_gapped : LegacyPool → ℕ → Transaction → Bool × Noncer.Noncer
  unfolding lookup Noncer.get fills
  is_gapped p from tx =
      let (next, nonces) = Noncer.get p.pending_nonces from in
      if leb tx.nonce next then (false, nonces) else elim (lookup from p.queue) [
        | none ↦ (true, nonces)
        | some l ↦ (not (fills l (tx.nonce - next) next), nonces)
      ]

  -- The loop that asks whether a dropped transaction is pending.
  unfoldable pub replaces_pending : Lists → List Transaction → Bool
  unfolding held sender
  replaces_pending pending [] = false
  replaces_pending pending (tx ∷ drop) =
      let rest = replaces_pending pending drop in
      if is_some (held pending (sender tx) tx.nonce) then true else rest

  module _ (price_bump now : ℕ) where
    -- `enqueueTx`; `none` is `ErrReplaceUnderpriced`.
    unfoldable pub enqueue_tx :
        LegacyPool → Transaction → Option (Received × Bool) → LegacyPool × Option Bool
    unfolding sender list_or_new add_tx insert forget enter first_beat
    enqueue_tx p tx new =
        let from = sender tx in
        let (l, inserted, old) = add_tx (list_or_new p.queue from false) tx price_bump in
        if inserted
        then (
          record p {
            queue = insert from l p.queue;
            all = enter (forget p.all old) new;
            beats = first_beat from now p.beats;
          },
          some (is_some old),
        )
        else (record p { queue = insert from l p.queue }, none)

    -- `promoteTx`
    unfoldable pub promote_tx : LegacyPool → ℕ → Transaction → LegacyPool × Bool
    unfolding list_or_new add_tx insert forget Lookup.remove Noncer.set_nonce
    promote_tx p addr tx =
        let (l, inserted, old) = add_tx (list_or_new p.pending addr true) tx price_bump in
        if inserted
        then (
          record p {
            pending = insert addr l p.pending;
            all = forget p.all old;
            pending_nonces = Noncer.set_nonce p.pending_nonces addr ((tx.nonce + 1) % u64);
            beats = insert addr now p.beats;
          },
          true,
        )
        else (
          record p { pending = insert addr l p.pending; all = Lookup.remove p.all tx.hash },
          false,
        )

    -- The loop of `removeTx` that postpones what became invalid.
    unfoldable pub postpone : LegacyPool → List Transaction → LegacyPool
    unfolding enqueue_tx
    postpone p [] = p
    postpone p (tx ∷ txs) = postpone (enqueue_tx p tx none).0 txs

    -- The end of `removeTx`, for a transaction that is not pending.
    unfoldable pub remove_queued : LegacyPool → ℕ → Transaction → LegacyPool
    unfolding lookup remove_tx is_empty store_list delete
    remove_queued p addr tx = elim (lookup addr p.queue) [
      | none ↦ p
      | some l ↦
          let (l', removed, rest) = remove_tx l tx in
          record p {
            queue = store_list addr l' p.queue;
            beats = if is_empty l' then delete addr p.beats else p.beats;
          }
    ]

    -- The part of `removeTx` after the removal from the lookup.
    unfoldable pub remove_listed : LegacyPool → ℕ → Transaction → LegacyPool × ℕ
    unfolding lookup remove_tx store_list postpone set_if_lower remove_queued
    remove_listed p addr tx = elim (lookup addr p.pending) [
      | none ↦ (remove_queued p addr tx, 0)
      | some l ↦
          let (l', removed, invalids) = remove_tx l tx in
          let q = postpone (record p { pending = store_list addr l' p.pending }) invalids in
          if removed
          then (
            record q { pending_nonces = set_if_lower q.pending_nonces addr tx.nonce },
            1 + length invalids,
          )
          else (remove_queued p addr tx, 0)
    ]

    -- `removeTx`: the pool, and the number of transactions that it took out of the pending list.
    unfoldable pub remove_pool_tx : LegacyPool → ℕ → LegacyPool × ℕ
    unfolding Lookup.get Lookup.remove sender remove_listed
    remove_pool_tx p hash = elim (Lookup.get p.all hash) [
      | none ↦ (p, 0)
      | some r ↦ remove_listed (record p { all = Lookup.remove p.all hash }) (sender r.tx) r.tx
    ]

    -- The loop of `add` that kicks out the transactions of the heap of prices.
    unfoldable pub kick_out : LegacyPool → List Transaction → LegacyPool
    unfolding remove_pool_tx
    kick_out p [] = p
    kick_out p (tx ∷ drop) =
        let (q, dropped) = remove_pool_tx p tx.hash in
        kick_out (record q { changes_since_reorg = q.changes_since_reorg + dropped }) drop
