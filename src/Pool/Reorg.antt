-- ===== src/Pool/Reorg.antt =====
-- core/txpool/legacypool/legacypool.go: `promoteExecutables` and `demoteUnexecutables`, which move
-- transactions between the queue and the pending lists as the head of the chain changes. The head is given
-- by its nonces, its balances, which are not negative, and its gas limit. A panic is `none`.
pub mod Steps
pub mod Promote
pub mod Demote
use pangu.Prelude.{
  ℕ, Bool, true, false, not, ◌&&◌, Option, none, some, List, [], ◌∷◌, ◌++◌, ◌>>=◌, if◌then◌else◌,
  contains, lookup, insert, delete,
}
use pangu.Message.{Transaction}
use pangu.Lookup as Lookup
use pangu.Noncer as Noncer
use pangu.TxList.{TxList, get_tx, filter_list}
use pangu.TxList.Ready.{forward_list, ready_list}
use pangu.TxList.Cap.{cap_list}
use pangu.Pool.{LegacyPool, Lists, is_some, is_empty, store_list, promote_tx, postpone}

pub record Head : Type 0 where
  pub nonce : ℕ → ℕ
  pub balance : ℕ → ℕ
  pub gas_limit : ℕ

-- `for _, tx := range txs { pool.all.Remove(tx.Hash()) }`
unfoldable pub forget_all : Lookup.Lookup → List Transaction → Lookup.Lookup
unfolding Lookup.remove
forget_all all [] = all
forget_all all (tx ∷ txs) = forget_all (Lookup.remove all tx.hash) txs

-- A list of the queue, or a pending one, that has changed in place, and what left it for good.
unfoldable pub drop_queued : LegacyPool → ℕ → TxList → List Transaction → LegacyPool
unfolding insert forget_all
drop_queued p addr l gone = record p { queue = insert addr l p.queue; all = forget_all p.all gone }

unfoldable pub drop_pending : LegacyPool → ℕ → TxList → List Transaction → LegacyPool
unfolding insert forget_all
drop_pending p addr l gone = record p {
  pending = insert addr l p.pending;
  all = forget_all p.all gone;
}

-- `if list.Empty() { delete(pool.queue, addr); delete(pool.beats, addr) }`
unfoldable pub close_queue : LegacyPool → ℕ → TxList → LegacyPool
unfolding store_list is_empty delete
close_queue p addr l = record p {
  queue = store_list addr l p.queue;
  beats = if is_empty l then delete addr p.beats else p.beats;
}

module _ (signer : Transaction → Option ℕ) (price_bump account_queue now : ℕ) (head : Head) where
  -- The loop over the executable transactions, with those that are promoted.
  unfoldable pub promote_all : LegacyPool → ℕ → List Transaction → LegacyPool × List Transaction
  unfolding promote_tx
  promote_all p addr [] = (p, [])
  promote_all p addr (tx ∷ txs) =
      let (q, inserted) = promote_tx signer price_bump now p addr tx in
      let (final, promoted) = promote_all q addr txs in
      (final, if inserted then tx ∷ promoted else promoted)

  -- The end of the loop of `promoteExecutables`: the limit of the queue, unless the account is local.
  unfoldable pub cap_queued :
      LegacyPool × List Transaction → ℕ → TxList → Option (LegacyPool × List Transaction)
  unfolding cap_list drop_queued close_queue
  cap_queued (p, promoted) addr l =
      (if contains p.locals addr then some (l, []) else cap_list l account_queue) >>= λ (m, caps).
      some (close_queue (drop_queued p addr m caps) addr m, promoted)

  unfoldable pub promote_readies : LegacyPool → ℕ → TxList → Option (LegacyPool × List Transaction)
  unfolding Noncer.get ready_list insert promote_all cap_queued
  promote_readies p addr l = ready_list l (Noncer.get p.pending_nonces addr).0 >>= λ (m, readies).
      cap_queued
        (promote_all
          (record p {
            queue = insert addr m p.queue;
            pending_nonces = (Noncer.get p.pending_nonces addr).1;
          })
          addr readies)
        addr m

  unfoldable pub promote_payable : LegacyPool → ℕ → TxList → Option (LegacyPool × List Transaction)
  unfolding filter_list drop_queued promote_readies
  promote_payable p addr l =
      let (m, drops, invalids) = filter_list l (head.balance addr) head.gas_limit in
      promote_readies (drop_queued p addr m drops) addr m

  -- The body of the loop of `promoteExecutables`.
  unfoldable pub promote_account : LegacyPool → ℕ → Option (LegacyPool × List Transaction)
  unfolding lookup forward_list drop_queued promote_payable
  promote_account p addr = elim (lookup addr p.queue) [
    | none ↦ some (p, [])
    | some l ↦ forward_list l (head.nonce addr) >>= λ (m, forwards).
        promote_payable (drop_queued p addr m forwards) addr m
  ]

  -- `promoteExecutables`, with the promoted transactions.
  unfoldable pub promote_executables : LegacyPool → List ℕ → Option (LegacyPool × List Transaction)
  unfolding promote_account
  promote_executables p [] = some (p, [])
  promote_executables p (addr ∷ accounts) = do
    (q, promoted) ← promote_account p addr
    (final, rest) ← promote_executables q accounts
    some (final, promoted ++ rest)

  -- `if list.Len() > 0 && list.txs.Get(nonce) == nil`: a gap in front.
  unfoldable pub demote_gapped : LegacyPool → ℕ → TxList → Option LegacyPool
  unfolding is_empty get_tx cap_list insert postpone store_list
  demote_gapped p addr l =
      if not (is_empty l) && not (is_some (get_tx l.txs (head.nonce addr)))
      then cap_list l 0 >>= (λ (m, gapped).
        let q =
          postpone signer price_bump now (record p { pending = insert addr m p.pending }) gapped in
        some (record q { pending = store_list addr m q.pending }))
      else some (record p { pending = store_list addr l p.pending })

  unfoldable pub demote_payable : LegacyPool → ℕ → TxList → Option LegacyPool
  unfolding filter_list drop_pending postpone demote_gapped
  demote_payable p addr l =
      let (m, drops, invalids) = filter_list l (head.balance addr) head.gas_limit in
      demote_gapped (postpone signer price_bump now (drop_pending p addr m drops) invalids) addr m

  -- The body of the loop of `demoteUnexecutables`.
  unfoldable pub demote_account : LegacyPool → ℕ → Option LegacyPool
  unfolding lookup forward_list drop_pending demote_payable
  demote_account p addr = elim (lookup addr p.pending) [
    | none ↦ some p
    | some l ↦ forward_list l (head.nonce addr) >>= λ (m, olds).
        demote_payable (drop_pending p addr m olds) addr m
  ]

  unfoldable pub demote_accounts : LegacyPool → List ℕ → Option LegacyPool
  unfolding demote_account
  demote_accounts p [] = some p
  demote_accounts p (addr ∷ accounts) = demote_account p addr >>= λ q. demote_accounts q accounts

  abbrev accounts_of : Lists → List ℕ
  accounts_of [] = []
  accounts_of ((addr, l) ∷ lists) = addr ∷ accounts_of lists

  -- `demoteUnexecutables`
  unfoldable pub demote_unexecutables : LegacyPool → Option LegacyPool
  unfolding demote_accounts
  demote_unexecutables p = demote_accounts p (accounts_of p.pending)
