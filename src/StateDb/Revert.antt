-- ===== src/StateDb/Revert.antt =====
-- Any run of the methods and frames after a snapshot is taken back by the return to it.
use pangu.Prelude.{
  ◌+◌, ◌≡◌, refl, sym, subst, ap, ◌∙◌, Bool, true, false, none, some, [], ◌∷◌, ◌&&◌, arith,
  Option-cases, inl, inr, length,
}
use pangu.AccessList.Laws.{IsValid}
use pangu.StateObject.{Database}
use pangu.StateDb.{State}
use pangu.StateDb.Journal.{snapshot, revert_to_snapshot}
use pangu.StateDb.Similar.{Similar, Similar-trans}
use pangu.StateDb.Undo.{Undoable, Undoable-trans, Similar-Undoable, undo_list}
use pangu.StateDb.Accounts.{create_account-Undoable}
use pangu.StateDb.Steps.{
  set_balance-Undoable, add_balance-Undoable, sub_balance-Undoable, Undoable-refl,
  set_nonce-Undoable, set_code-Undoable, set_state-Undoable, self_destruct-Undoable,
  get_state-Undoable, get_code-Undoable,
}
use pangu.StateDb.Values.{
  add_refund-Undoable, sub_refund-Undoable, add_log-Undoable, add_preimage-Undoable,
  set_transient_state-Undoable,
}
use pangu.StateDb.Lists.{add_address_to_access_list-Undoable, add_slot_to_access_list-Undoable}
use pangu.StateDb.Program.{
  Op, create_account_op, add_balance_op, sub_balance_op, set_balance_op, set_nonce_op, set_code_op,
  set_state_op, self_destruct_op, add_refund_op, sub_refund_op, add_log_op, add_preimage_op,
  set_transient_state_op, add_address_op, add_slot_op, get_state_op, get_code_op, Program, stop,
  step, frame, run_op, run, spares_op, spares_refund,
}
use pangu.StateDb.Restore.{journal-Similar, Restored, revert_to_snapshot-Restored}

both : (b c : Bool) → (b && c) ≡ true → (b ≡ true) × (c ≡ true)
both true c h = (refl, h)
both false c h = ground arith

module _ (db : Database) where
  into : {st u st' : State} → some u ≡ some st' → Undoable db st u → Undoable db st st'
  into {st} {u} h p = subst (Undoable db st) (ap (λ o. elim o [ none ↦ u | some x ↦ x ]) h) p

  -- Every method is taken back.
  run_op-Undoable :
      (o : Op) (st : State) {st' : State}
      → IsValid st.access_list
      → run_op db o st ≡ some st'
      → Undoable db st st'
  unfolding run_op
  run_op-Undoable (create_account_op a) st v h = into h (create_account-Undoable db st a)
  run_op-Undoable (add_balance_op a x) st v h = into h (add_balance-Undoable db st a x)
  run_op-Undoable (sub_balance_op a x) st v h = into h (sub_balance-Undoable db st a x)
  run_op-Undoable (set_balance_op a x) st v h = into h (set_balance-Undoable db st a x)
  run_op-Undoable (set_nonce_op a n) st v h = into h (set_nonce-Undoable db st a n)
  run_op-Undoable (set_code_op a c) st v h = into h (set_code-Undoable db st a c)
  run_op-Undoable (set_state_op a k x) st v h = into h (set_state-Undoable db st a k x)
  run_op-Undoable (self_destruct_op a) st v h = into h (self_destruct-Undoable db st a)
  run_op-Undoable (add_refund_op g) st v h = into h (add_refund-Undoable db st g)
  run_op-Undoable (sub_refund_op g) st v h = sub_refund-Undoable db st g h
  run_op-Undoable (add_log_op c) st v h = into h (add_log-Undoable db st c)
  run_op-Undoable (add_preimage_op k p) st v h = into h (add_preimage-Undoable db st k p)
  run_op-Undoable (set_transient_state_op a k x) st v h =
      into h (set_transient_state-Undoable db st a k x)
  run_op-Undoable (add_address_op a) st v h = into h (add_address_to_access_list-Undoable db st a v)
  run_op-Undoable (add_slot_op a s) st v h =
      let (u, e, p) = add_slot_to_access_list-Undoable db st a s v in into (sym e ∙ h) p
  run_op-Undoable (get_state_op a k) st v h = into h (get_state-Undoable db st a k)
  run_op-Undoable (get_code_op a) st v h = into h (get_code-Undoable db st a)

  snapshot-Undoable : (st : State) → Undoable db st (snapshot db st).1
  unfolding snapshot undo_list
  snapshot-Undoable st = record {
    new = [];
    entries = refl;
    undone = λ s h. Similar-trans db h (
        journal-Similar db st st.entries (snapshot db st).1.valid_revisions
          (st.next_revision_id + 1));
    valid = λ v. v;
    revs = (st.next_revision_id, length st.entries) ∷ [];
    revisions = refl;
    above = (omega arith, tt);
    later = omega arith;
  }

  -- A frame that went back is no step at all.
  failed-Undoable :
      (st v r : State) → Undoable db (snapshot db st).1 v → Restored db st v r → Undoable db st r
  unfolding snapshot
  failed-Undoable st v r p q =
      Similar-Undoable db st r q.like q.entries q.revisions
        (let n = q.next in let m = p.later in omega arith)

  run-Undoable :
      (p : Program) (st : State) {st' : State}
      → IsValid st.access_list
      → run db p st ≡ some st'
      → Undoable db st st'
  unfolding run
  run-Undoable stop st v h = into h (Undoable-refl db st)
  run-Undoable (step o p) st v h = elim (Option-cases (run_op db o st)) [
    | inl e ↦ cc (rw e at h)
    | inr (u, e) ↦
        let first = run_op-Undoable o st v e in
        Undoable-trans db first (run-Undoable p u (first.valid v) (rw e at h))
  ]
  run-Undoable (frame q true p) st v h = elim (Option-cases (run db q (snapshot db st).1)) [
    | inl e ↦ cc (rw e at h)
    | inr (w, e) ↦
        let inner = run-Undoable q (snapshot db st).1 (unfold snapshot in v) e in
        let (r, f, back) = revert_to_snapshot-Restored db st w inner in
        let outer = failed-Undoable st w r inner back in
        Undoable-trans db outer (run-Undoable p r (outer.valid v) (rw f at rw e at h))
  ]
  run-Undoable (frame q false p) st v h = elim (Option-cases (run db q (snapshot db st).1)) [
    | inl e ↦ cc (rw e at h)
    | inr (w, e) ↦
        let inner = run-Undoable q (snapshot db st).1 (unfold snapshot in v) e in
        let outer = Undoable-trans db (snapshot-Undoable st) inner in
        Undoable-trans db outer (run-Undoable p w (outer.valid v) (rw e at h))
  ]

  -- After a snapshot, whatever calls of the methods of `Op` follow without a panic (CreateAccount,
  -- AddBalance, SubBalance, SetBalance, SetNonce, SetCode, SetState, SelfDestruct, AddRefund, SubRefund,
  -- AddLog, AddPreimage, SetTransientState, the two additions to the access list, GetState and GetCode),
  -- with frames among them that keep or revert their own changes, going back to the snapshot does not panic and gives a state in which every
  -- account reads as it did (its nonce, balance, root, code, storage and flags), as do the refund, the
  -- logs, the preimages, the access list, the transient storage and the journal's counts of the changed
  -- accounts but that of account 3, and in which the journal and the open snapshots are those before.
  -- The access list is to be valid at the snapshot.
  pub revert_to_snapshot-run :
      (p : Program) (st st' : State)
      → IsValid st.access_list
      → run db p (snapshot db st).1 ≡ some st'
      → (r : State) × (revert_to_snapshot db (snapshot db st).0 st' ≡ some r)
        × Similar db r st
        × (r.entries ≡ st.entries)
        × (r.valid_revisions ≡ st.valid_revisions)
  revert_to_snapshot-run p st st' v h =
      let inner = run-Undoable p (snapshot db st).1 (unfold snapshot in v) h in
      let (r, e, back) = revert_to_snapshot-Restored db st st' inner in
      (r, e, back.like, back.entries, back.revisions)

  run_op-returns :
      (o : Op) (st : State)
      → IsValid st.access_list
      → spares_op o ≡ true
      → (st' : State) × (run_op db o st ≡ some st')
  unfolding run_op
  run_op-returns (create_account_op a) st v h = (_, refl)
  run_op-returns (add_balance_op a x) st v h = (_, refl)
  run_op-returns (sub_balance_op a x) st v h = (_, refl)
  run_op-returns (set_balance_op a x) st v h = (_, refl)
  run_op-returns (set_nonce_op a n) st v h = (_, refl)
  run_op-returns (set_code_op a c) st v h = (_, refl)
  run_op-returns (set_state_op a k x) st v h = (_, refl)
  run_op-returns (self_destruct_op a) st v h = (_, refl)
  run_op-returns (add_refund_op g) st v h = (_, refl)
  run_op-returns (sub_refund_op g) st v h = ground arith
  run_op-returns (add_log_op c) st v h = (_, refl)
  run_op-returns (add_preimage_op k p) st v h = (_, refl)
  run_op-returns (set_transient_state_op a k x) st v h = (_, refl)
  run_op-returns (add_address_op a) st v h = (_, refl)
  run_op-returns (add_slot_op a s) st v h =
      let (u, e, p) = add_slot_to_access_list-Undoable db st a s v in (u, e)
  run_op-returns (get_state_op a k) st v h = (_, refl)
  run_op-returns (get_code_op a) st v h = (_, refl)

  -- From a state whose access list is valid, every run of the methods of `Op` other than SubRefund
  -- (CreateAccount, AddBalance, SubBalance, SetBalance, SetNonce, SetCode, SetState, SelfDestruct,
  -- AddRefund, AddLog, AddPreimage, SetTransientState, the two additions to the access list, GetState and
  -- GetCode), with frames that keep or revert their changes nested in any way, returns without a panic.
  pub run-returns :
      (p : Program) (st : State)
      → IsValid st.access_list
      → spares_refund p ≡ true
      → (st' : State) × (run db p st ≡ some st')
  unfolding run
  run-returns stop st v h = (st, refl)
  run-returns (step o p) st v h =
      let (u, e) = run_op-returns o st v (both (spares_op o) (spares_refund p) h).0 in
      let first = run_op-Undoable o st v e in
      let (st', f) = run-returns p u (first.valid v) (both (spares_op o) (spares_refund p) h).1 in
      (st', rw (e, run) f)
  run-returns (frame q true p) st v h =
      let (w, e) =
        run-returns q (snapshot db st).1 (unfold snapshot in v)
          (both (spares_refund q) (spares_refund p) h).0 in
      let inner = run-Undoable q (snapshot db st).1 (unfold snapshot in v) e in
      let (r, f, back) = revert_to_snapshot-Restored db st w inner in
      let outer = failed-Undoable st w r inner back in
      let (st', g) =
        run-returns p r (outer.valid v) (both (spares_refund q) (spares_refund p) h).1 in
      (st', rw (e, f, run) g)
  run-returns (frame q false p) st v h =
      let (w, e) =
        run-returns q (snapshot db st).1 (unfold snapshot in v)
          (both (spares_refund q) (spares_refund p) h).0 in
      let inner = run-Undoable q (snapshot db st).1 (unfold snapshot in v) e in
      let outer = Undoable-trans db (snapshot-Undoable st) inner in
      let (st', g) =
        run-returns p w (outer.valid v) (both (spares_refund q) (spares_refund p) h).1 in
      (st', rw (e, run) g)
