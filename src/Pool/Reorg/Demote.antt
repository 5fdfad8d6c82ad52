-- ===== src/Pool/Reorg/Demote.antt =====
-- `demoteUnexecutables` returns and keeps the pool consistent.
use pangu.Prelude.{
  ℕ, ◌≡◌, sym, ap, ◌∙◌, subst, true, not, ◌&&◌, Option, some, List, [], ◌∷◌, append-nil, lookup,
  insert, Returns, Returns-bind, Option-cases, Bool-cases, inl, inr,
}
use pangu.Message.{Transaction}
use pangu.Lookup as Lookup
use pangu.TxList.{TxList, get_tx, filter_list}
use pangu.TxList.Sound.{filter_list-IsSound}
use pangu.TxList.Sound.Pops.{IsKeyed}
use pangu.TxList.Sound.Out.{forward_list-Goes, cap_list-Goes}
use pangu.Pool.{LegacyPool, held, is_some, is_empty, store_list, postpone}
use pangu.Pool.Taken.{Loses, Pops-Loses}
use pangu.Pool.Keep.{with_items-same, held-store_list}
use pangu.Pool.Listed.{filter_list-Filters}
use pangu.Pool.Valid.{IsConsistent, store_list-AreLists}
use pangu.Pool.Flight.{postpone-IsConsistent}
use pangu.Pool.Remove.{list-IsKeyed, held-some}
use pangu.Pool.Reorg.{
  Head, drop_pending, demote_gapped, demote_payable, demote_account, demote_accounts,
  demote_unexecutables,
}
use pangu.Pool.Reorg.Steps.{lookup-insert_same, pending_step, drop_pending-IsConsistent}

module _ (signer : Transaction → Option ℕ) where
  close_pending :
      (p : LegacyPool) (a : ℕ) (l : TxList)
      → IsConsistent signer p []
      → lookup a p.pending ≡ some l
      → IsConsistent signer (record p { pending = store_list a l p.pending }) []
  close_pending p a l c e =
      let (mode, sound) = c.pending_lists a l e in
      record {
        places =
            rw
              (
                held-store_list a l p.pending,
                with_items-same (held p.pending) a l.txs.items (held-some p.pending a l e),
              )
              c.places;
        pending_lists = store_list-AreLists true a l p.pending mode sound c.pending_lists;
        queue_lists = c.queue_lists;
        counted = c.counted;
      }

  keyed :
      (p : LegacyPool) (a : ℕ) (l : TxList)
      → IsConsistent signer p []
      → lookup a p.pending ≡ some l
      → IsKeyed l.txs.items
  keyed p a l c e = list-IsKeyed signer p.pending (Lookup.get p.all) a l e c.places.listed

  module _ (price_bump account_queue now : ℕ) (head : Head) where
    abbrev Fine : Option LegacyPool → Type 0
    Fine o = Returns (λ q. IsConsistent signer q []) o

    demote_gapped-Fine :
        (p : LegacyPool) (a : ℕ) (l : TxList)
        → IsConsistent signer p []
        → lookup a p.pending ≡ some l
        → Fine (demote_gapped signer price_bump account_queue now head p a l)
    unfolding demote_gapped
    demote_gapped-Fine p a l c e =
        elim (Bool-cases (not (is_empty l) && not (is_some (get_tx l.txs (head.nonce a))))) [
          | inr f ↦ rw (f, demote_gapped) (close_pending p a l c e)
          | inl f ↦
              let (g, _) = cap_list-Goes l 0 (c.pending_lists a l e).1 (keyed p a l c e) in
              let d =
                pending_step signer p a l g.rest g.txs c e
                  (Pops-Loses l.txs.items g.txs g.rest.txs.items g.pops) g.same_mode g.sound in
              let q : LegacyPool = record p { pending = insert a g.rest p.pending } in
              let (done, _, kept) = postpone-IsConsistent signer price_bump now q g.txs d in
              rw (f, g.returns, demote_gapped)
                (close_pending (postpone signer price_bump now q g.txs) a g.rest done
                  (ap (lookup a) kept ∙ lookup-insert_same a g.rest p.pending))
        ]

    demote_payable-Fine :
        (p : LegacyPool) (a : ℕ) (l : TxList)
        → IsConsistent signer p []
        → lookup a p.pending ≡ some l
        → Fine (demote_payable signer price_bump account_queue now head p a l)
    unfolding demote_payable drop_pending
    demote_payable-Fine p a l c e =
        let (mode, sound) = c.pending_lists a l e in
        let r = filter_list l (head.balance a) head.gas_limit in
        let f = filter_list-Filters l (head.balance a) head.gas_limit sound (keyed p a l c e) in
        let q = drop_pending p a r.0 r.1 in
        let d =
          drop_pending-IsConsistent signer p a l r.0 r.1 r.2 c e f.loses f.same_mode
            (filter_list-IsSound l (head.balance a) head.gas_limit sound) in
        let (done, _, kept) = postpone-IsConsistent signer price_bump now q r.2 d in
        demote_gapped-Fine (postpone signer price_bump now q r.2) a r.0 done
          (ap (lookup a) kept ∙ lookup-insert_same a r.0 p.pending)

    demote_account-Fine :
        (p : LegacyPool) (a : ℕ)
        → IsConsistent signer p []
        → Fine (demote_account signer price_bump account_queue now head p a)
    unfolding demote_account drop_pending
    demote_account-Fine p a c = elim (Option-cases (lookup a p.pending)) [
      | inl e ↦ rw (e, demote_account) c
      | inr (l, e) ↦
          let g = forward_list-Goes l (head.nonce a) (c.pending_lists a l e).1 (keyed p a l c e) in
          let loses = Pops-Loses l.txs.items g.txs g.rest.txs.items g.pops in
          rw (e, g.returns, demote_account)
            (demote_payable-Fine (drop_pending p a g.rest g.txs) a g.rest
              (drop_pending-IsConsistent signer p a l g.rest g.txs [] c e
                (subst (Loses l.txs.items g.rest.txs.items) (sym (append-nil g.txs)) loses)
                g.same_mode g.sound)
              (lookup-insert_same a g.rest p.pending))
    ]

    demote_accounts-Fine :
        (p : LegacyPool) (accounts : List ℕ)
        → IsConsistent signer p []
        → Fine (demote_accounts signer price_bump account_queue now head p accounts)
    unfolding demote_accounts
    demote_accounts-Fine p [] c = c
    demote_accounts-Fine p (a ∷ accounts) c =
        Returns-bind _ _ (demote_account signer price_bump account_queue now head p a) _
          (demote_account-Fine p a c) (λ q d. demote_accounts-Fine q accounts d)

    -- On a consistent pool `demoteUnexecutables` returns without a panic, whatever the head of the chain is,
    -- and the pool is consistent after it.
    pub demote_unexecutables-Returns :
        (p : LegacyPool)
        → IsConsistent signer p []
        → Returns
            (λ q. IsConsistent signer q [])
            (demote_unexecutables signer price_bump account_queue now head p)
    unfolding demote_unexecutables
    demote_unexecutables-Returns p c = demote_accounts-Fine p _ c
