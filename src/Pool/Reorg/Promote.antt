-- ===== src/Pool/Reorg/Promote.antt =====
-- `promoteExecutables` returns and keeps the pool consistent.
use pangu.Prelude.{
  ℕ, ◌≡◌, refl, ap, ◌∙◌, subst, false, Option, some, List, [], ◌∷◌, ◌++◌, append-nil, lookup,
  insert, contains, All, All-imp, Returns, Returns-bind, Option-cases, Bool-cases, inl, inr,
}
use pangu.Message.{Transaction}
use pangu.Lookup as Lookup
use pangu.Noncer as Noncer
use pangu.TxList.{TxList, filter_list}
use pangu.TxList.Sound.{filter_list-IsSound}
use pangu.TxList.Sound.Pops.{IsKeyed}
use pangu.TxList.Sound.Out.{forward_list-Goes, ready_list-Goes, cap_list-Goes}
use pangu.Pool.{LegacyPool, held, sender}
use pangu.Pool.Taken.{Left, Loses, Loses-none, Pops-Loses}
use pangu.Pool.Keep.{with_items-same, held-store_list}
use pangu.Pool.Listed.{filter_list-Filters}
use pangu.Pool.Valid.{IsConsistent, store_list-AreLists}
use pangu.Pool.Remove.{list-IsKeyed, held-some}
use pangu.Pool.Reorg.{
  Head, drop_queued, close_queue, promote_all, cap_queued, promote_readies, promote_payable,
  promote_account, promote_executables,
}
use pangu.Pool.Reorg.Steps.{
  lookup-insert_same, queue_step, drop_queued-IsConsistent, promote_all-IsConsistent,
}

module _ (signer : Transaction → Option ℕ) where
  close_queue-IsConsistent :
      (p : LegacyPool) (a : ℕ) (l : TxList)
      → IsConsistent signer p []
      → lookup a p.queue ≡ some l
      → IsConsistent signer (close_queue p a l) []
  unfolding close_queue
  close_queue-IsConsistent p a l c e =
      let (mode, sound) = c.queue_lists a l e in
      record {
        places =
            rw
              (
                held-store_list a l p.queue,
                with_items-same (held p.queue) a l.txs.items (held-some p.queue a l e),
              )
              c.places;
        pending_lists = c.pending_lists;
        queue_lists = store_list-AreLists false a l p.queue mode sound c.queue_lists;
        counted = c.counted;
      }

  keyed :
      (p : LegacyPool) (a : ℕ) (l : TxList)
      → IsConsistent signer p []
      → lookup a p.queue ≡ some l
      → IsKeyed l.txs.items
  keyed p a l c e = list-IsKeyed signer p.queue (Lookup.get p.all) a l e c.places.listed_too

  -- What leaves the list of an account is of that account.
  owned :
      (p : LegacyPool) (a : ℕ) (l : TxList) (m : List (ℕ × Transaction)) (gone : List Transaction)
      → IsConsistent signer p []
      → lookup a p.queue ≡ some l
      → Loses l.txs.items m gone
      → All (λ t. sender signer t ≡ a) gone
  owned p a l m gone c e loses =
      All-imp (Left l.txs.items m) (λ t. sender signer t ≡ a)
        (λ t (h, _).
          let (x, y, z) = c.places.listed_too a t.nonce t (held-some p.queue a l e t.nonce ∙ h) in
          x)
        gone loses.left

  module _ (price_bump account_queue now : ℕ) (head : Head) where
    abbrev Fine : Option (LegacyPool × List Transaction) → Type 0
    Fine o = Returns (λ r. IsConsistent signer r.0 []) o

    cap_queued-Fine :
        (p : LegacyPool) (promoted : List Transaction) (a : ℕ) (l : TxList)
        → IsConsistent signer p []
        → lookup a p.queue ≡ some l
        → Fine (cap_queued signer price_bump account_queue now head (p, promoted) a l)
    unfolding cap_queued drop_queued
    cap_queued-Fine p promoted a l c e = elim (Bool-cases (contains p.locals a)) [
      | inl f ↦
          rw (f, cap_queued)
            (close_queue-IsConsistent (drop_queued p a l []) a l
              (drop_queued-IsConsistent signer p a l l [] c e (Loses-none l.txs.items) refl
                (c.queue_lists a l e).1)
              (lookup-insert_same a l p.queue))
      | inr f ↦
          let (g, _) = cap_list-Goes l account_queue (c.queue_lists a l e).1 (keyed p a l c e) in
          rw (f, g.returns, cap_queued)
            (close_queue-IsConsistent (drop_queued p a g.rest g.txs) a g.rest
              (drop_queued-IsConsistent signer p a l g.rest g.txs c e
                (Pops-Loses l.txs.items g.txs g.rest.txs.items g.pops) g.same_mode g.sound)
              (lookup-insert_same a g.rest p.queue))
    ]

    promote_readies-Fine :
        (p : LegacyPool) (a : ℕ) (l : TxList)
        → IsConsistent signer p []
        → lookup a p.queue ≡ some l
        → Fine (promote_readies signer price_bump account_queue now head p a l)
    unfolding promote_readies
    promote_readies-Fine p a l c e =
        let next = (Noncer.get p.pending_nonces a).0 in
        let g = ready_list-Goes l next (c.queue_lists a l e).1 (keyed p a l c e) in
        let loses = Pops-Loses l.txs.items g.txs g.rest.txs.items g.pops in
        let d = queue_step signer p a l g.rest g.txs c e loses g.same_mode g.sound in
        let q : LegacyPool = record p {
          queue = insert a g.rest p.queue;
          pending_nonces = (Noncer.get p.pending_nonces a).1;
        } in
        let d' : IsConsistent signer q g.txs = record {
          places = d.places;
          pending_lists = d.pending_lists;
          queue_lists = d.queue_lists;
          counted = d.counted;
        } in
        let (done, _, kept) =
          promote_all-IsConsistent signer price_bump account_queue now head q a g.txs d'
            (owned p a l g.rest.txs.items g.txs c e loses) in
        let r = promote_all signer price_bump account_queue now head q a g.txs in
        rw (g.returns, promote_readies)
          (cap_queued-Fine r.0 r.1 a g.rest done
            (ap (lookup a) kept ∙ lookup-insert_same a g.rest p.queue))

    promote_payable-Fine :
        (p : LegacyPool) (a : ℕ) (l : TxList)
        → IsConsistent signer p []
        → lookup a p.queue ≡ some l
        → Fine (promote_payable signer price_bump account_queue now head p a l)
    unfolding promote_payable drop_queued
    promote_payable-Fine p a l c e =
        let (mode, sound) = c.queue_lists a l e in
        let r = filter_list l (head.balance a) head.gas_limit in
        let f = filter_list-Filters l (head.balance a) head.gas_limit sound (keyed p a l c e) in
        let loses : Loses l.txs.items r.0.txs.items r.1 =
          subst (Loses l.txs.items r.0.txs.items)
            (ap (λ ys. r.1 ++ ys) (f.lax mode) ∙ append-nil r.1) f.loses in
        promote_readies-Fine (drop_queued p a r.0 r.1) a r.0
          (drop_queued-IsConsistent signer p a l r.0 r.1 c e loses f.same_mode
            (filter_list-IsSound l (head.balance a) head.gas_limit sound))
          (lookup-insert_same a r.0 p.queue)

    promote_account-Fine :
        (p : LegacyPool) (a : ℕ)
        → IsConsistent signer p []
        → Fine (promote_account signer price_bump account_queue now head p a)
    unfolding promote_account drop_queued
    promote_account-Fine p a c = elim (Option-cases (lookup a p.queue)) [
      | inl e ↦ rw (e, promote_account) c
      | inr (l, e) ↦
          let g = forward_list-Goes l (head.nonce a) (c.queue_lists a l e).1 (keyed p a l c e) in
          rw (e, g.returns, promote_account)
            (promote_payable-Fine (drop_queued p a g.rest g.txs) a g.rest
              (drop_queued-IsConsistent signer p a l g.rest g.txs c e
                (Pops-Loses l.txs.items g.txs g.rest.txs.items g.pops) g.same_mode g.sound)
              (lookup-insert_same a g.rest p.queue))
    ]

    pub promote_executables-Returns :
        (p : LegacyPool) (accounts : List ℕ)
        → IsConsistent signer p []
        → Returns
            (λ r. IsConsistent signer r.0 [])
            (promote_executables signer price_bump account_queue now head p accounts)
    unfolding promote_executables
    promote_executables-Returns p [] c = c
    promote_executables-Returns p (a ∷ accounts) c =
        Returns-bind _ _ (promote_account signer price_bump account_queue now head p a) _
          (promote_account-Fine p a c)
          (λ r d.
            Returns-bind _ _
              (promote_executables signer price_bump account_queue now head r.0 accounts) _
              (promote_executables-Returns r.0 accounts d) (λ x h. h))
