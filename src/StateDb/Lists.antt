-- ===== src/StateDb/Lists.antt =====
-- The access list in the state: additions can be taken back from the journal, by what is shown of the
-- list alone.
use pangu.Prelude.{
  ℕ, ◌≡◌, refl, sym, subst, ap, none, some, List, [], ◌∷◌, ◌++◌, arith, Option-cases, inl, inr, map,
  length, ◌>>=◌, Returns,
}
use pangu.AccessList.Laws.{IsValid}
use pangu.AccessList.Journal as Listing
use pangu.AccessList.Journal.Undo.{Reverts, add_address-Reverts, add_slot-Reverts}
use pangu.StateObject.{Database}
use pangu.StateDb.{list_change, State, append}
use pangu.StateDb.Journal.{
  append_list, with_list, list_of, drop_dirty, revert_entry, add_address_to_access_list,
  add_slot_to_access_list,
}
use pangu.StateDb.Similar.{Similar}
use pangu.StateDb.Undo.{Undoable, undo_list, reads_beside}

append_list-entries :
    (es : List Listing.Entry) (st : State)
    → append_list es st ≡ record st { entries = map list_change es ++ st.entries }
unfolding append_list append
append_list-entries [] st = refl
append_list-entries (e ∷ es) st = ap (append (list_change e)) (append_list-entries es st)

module _ (db : Database) where
  -- Undoing the entries of the list in the state is undoing them in the list.
  undo_list-lists :
      (es : List Listing.Entry) (s : State) (r : Listing.State)
      → Listing.undo (length es) s.access_list es ≡ some r
      → undo_list db (map list_change es) s ≡ some (record s { access_list = r.access_list })
  unfolding undo_list Listing.undo revert_entry drop_dirty
  undo_list-lists [] s r h =
      ap (λ o. elim o [ none ↦ some s | some q ↦ some (record s { access_list = q.access_list }) ])
        h
  undo_list-lists (e ∷ es) s r h = elim (Option-cases (Listing.revert_entry e s.access_list)) [
    | inl p ↦ cc (rw (p, Listing.undo) at h)
    | inr (al, p) ↦
        rw (p, revert_entry)
          (undo_list-lists es (record s { access_list = al }) r (rw (p, Listing.undo) at h))
  ]

  list-Undoable :
      (st : State) (l : Listing.State) → Reverts (list_of st) l → Undoable db st (with_list st l)
  unfolding list_of with_list
  list-Undoable st l p =
      subst (Undoable db st)
        (sym (append_list-entries l.entries (record st { access_list = l.access_list })))
        (record {
          new = map list_change l.entries;
          entries = refl;
          undone = back;
          valid = λ v. p.valid;
          revs = [];
          revisions = refl;
          above = tt;
          later = omega arith;
        })
    where
      after : State
      after = record st {
        access_list = l.access_list;
        entries = map list_change l.entries ++ st.entries;
      }

      restored :
          (s : State)
          → Similar db s after
          → Similar db (record s { access_list = st.access_list }) st
      restored s h = record {
        same =
            reads_beside db (record s { access_list = st.access_list }) s after st refl refl refl
              refl h.same;
        destruct = h.destruct;
        refund = h.refund;
        thash = h.thash;
        logs = h.logs;
        log_size = h.log_size;
        preimages = h.preimages;
        access_list = refl;
        transient = h.transient;
        dirties = h.dirties;
      }

      back :
          (s : State)
          → Similar db s after
          → Returns (λ r. Similar db r st) (undo_list db (map list_change l.entries) s)
      back s h =
          let n : p.count ≡ length l.entries = let n = p.longer in omega arith in
          let reverted : Listing.undo (length l.entries) s.access_list l.entries
              ≡ some (list_of st) =
            subst (λ al. Listing.undo (length l.entries) al l.entries ≡ some (list_of st))
              (sym h.access_list)
              (subst (λ k. Listing.undo k l.access_list l.entries ≡ some (list_of st)) n
                p.undone) in
          subst (Returns (λ r. Similar db r st))
            (sym (undo_list-lists l.entries s (list_of st) reverted)) (restored s h)

  pub add_address_to_access_list-Undoable :
      (st : State) (a : ℕ)
      → IsValid st.access_list
      → Undoable db st (add_address_to_access_list st a)
  unfolding add_address_to_access_list list_of
  add_address_to_access_list-Undoable st a v =
      list-Undoable st _ (add_address-Reverts (list_of st) a v)

  pub add_slot_to_access_list-Undoable :
      (st : State) (a s : ℕ)
      → IsValid st.access_list
      → (st' : State) × (add_slot_to_access_list st a s ≡ some st') × Undoable db st st'
  unfolding add_slot_to_access_list list_of
  add_slot_to_access_list-Undoable st a s v =
      let (l, e, p) = add_slot-Reverts (list_of st) a s v in
      (with_list st l, ap (λ o. o >>= λ l. some (with_list st l)) e, list-Undoable st l p)
