-- ===== src/StateDb/Restore.antt =====
-- core/state/statedb.go, `RevertToSnapshot`: going back from any state whose steps since the snapshot can
-- be taken back.
use pangu.Prelude.{
  ℕ, ◌+◌, ◌-◌, ◌≡◌, ◌≤◌, refl, ap, ◌∙◌, Option, none, some, List, [], ◌∷◌, ◌++◌, arith,
  Option-cases, inl, inr, length, ◌>>=◌, Returns-both, Ensures, Ensures-bind, Ensures-imp, All,
  length-append,
}
use pangu.AccessList.Journal as Listing
use pangu.StateObject.{Database, put_balance}
use pangu.StateDb.{
  Entry, create_object_change, reset_object_change, suicide_change, balance_change, nonce_change,
  storage_change, code_change, refund_change, add_log_change, add_preimage_change, touch_change,
  list_change, transient_storage_change, State, get_state_object, get_deleted_state_object,
  set_state_object,
}
use pangu.StateDb.Journal.{
  revert_entry, on_object, drop_last, drop_dirty, undo, snapshot, search_revision,
  revert_to_snapshot,
}
use pangu.StateDb.Similar.{Similar, Similar-refl, Similar-trans}
use pangu.StateDb.Undo.{Undoable, undo_list, reads_beside}

module _ (db : Database) where
  -- Nothing but the journal and the revisions differs.
  pub journal-Similar :
      (s : State) (es : List Entry) (revs : List (ℕ × ℕ)) (n : ℕ)
      → Similar db (record s { entries = es; valid_revisions = revs; next_revision_id = n }) s
  journal-Similar s es revs n = record {
    same = reads_beside db _ s s s refl refl refl refl (λ b. refl);
    destruct = λ a. refl;
    refund = refl;
    thash = refl;
    logs = λ h. refl;
    log_size = refl;
    preimages = λ h. refl;
    access_list = refl;
    transient = λ a key. refl;
    dirties = λ a n. refl;
  }

  search_revision-append :
      (id index : ℕ) (revs rest : List (ℕ × ℕ))
      → All (λ r. id + 1 ≤ r.0) revs
      → search_revision db id (revs ++ ((id, index) ∷ rest)) ≡ some (index, rest)
  unfolding search_revision
  search_revision-append id index [] rest h = ground arith
  search_revision-append id index ((i, j) ∷ revs) rest h =
      let ih = search_revision-append id index revs rest h.1 in let above = h.0 in ground arith

  undo-undo_list :
      (es rest : List Entry) (s : State)
      → undo db (length es) (es ++ rest) s
        ≡ (undo_list db es s >>= λ r. some (record r { entries = rest }))
  unfolding undo undo_list
  undo-undo_list [] rest s = refl
  undo-undo_list (e ∷ es) rest s = elim (Option-cases (revert_entry db e s)) [
    | inl p ↦ rw p refl
    | inr (r, p) ↦ rw p (undo-undo_list es rest (drop_dirty e r))
  ]

  -- Undoing entries leaves the counter of the snapshots.
  abbrev pub Numbered : State → State → Type 0
  Numbered s r = r.next_revision_id ≡ s.next_revision_id

  elim-Numbered {ℓ} :
      {A : Type ℓ}
      → (g : Option A) (s : State) (z : Option State) (k : A → State) → Ensures (Numbered s) z
      → ((x : A) → Numbered s (k x))
      → Ensures (Numbered s) (elim g as (λ g. Option State) [ none ↦ z | some x ↦ some (k x) ])
  elim-Numbered none s z k h p = h
  elim-Numbered (some x) s z k h p = p x

  revert_entry-Numbered : (e : Entry) (s : State) → Ensures (Numbered s) (revert_entry db e s)
  unfolding revert_entry on_object put_balance get_state_object get_deleted_state_object
      set_state_object
  revert_entry-Numbered (create_object_change a) s = refl
  revert_entry-Numbered (reset_object_change a o d) s = refl
  revert_entry-Numbered (suicide_change a b x) s =
      elim-Numbered (get_state_object db s a).0 s (some (get_state_object db s a).1)
        (λ o.
          set_state_object (get_state_object db s a).1 a
            (put_balance x (record o { suicided = b })))
        refl (λ o. refl)
  revert_entry-Numbered (balance_change a x) s = elim-Numbered _ s none _ tt (λ o. refl)
  revert_entry-Numbered (nonce_change a n) s = elim-Numbered _ s none _ tt (λ o. refl)
  revert_entry-Numbered (storage_change a k v) s = elim-Numbered _ s none _ tt (λ o. refl)
  revert_entry-Numbered (code_change a c h) s = elim-Numbered _ s none _ tt (λ o. refl)
  revert_entry-Numbered (refund_change n) s = refl
  revert_entry-Numbered (add_log_change h) s =
      elim-Numbered (drop_last (s.logs h)) s none _ tt (λ o. refl)
  revert_entry-Numbered (add_preimage_change h) s = refl
  revert_entry-Numbered (touch_change a) s = refl
  revert_entry-Numbered (list_change e) s =
      elim-Numbered (Listing.revert_entry e s.access_list) s none _ tt (λ o. refl)
  revert_entry-Numbered (transient_storage_change a k v) s = refl

  undo_list-Numbered : (es : List Entry) (s : State) → Ensures (Numbered s) (undo_list db es s)
  unfolding undo_list drop_dirty
  undo_list-Numbered [] s = refl
  undo_list-Numbered (e ∷ es) s =
      Ensures-bind (Numbered s) (Numbered s) (revert_entry db e s)
        (λ r. undo_list db es (drop_dirty e r)) (revert_entry-Numbered e s)
        (λ r h.
          Ensures-imp (Numbered (drop_dirty e r)) (Numbered s) (undo_list db es (drop_dirty e r))
            (λ t k. k ∙ h) (undo_list-Numbered es (drop_dirty e r)))

  -- Going back to a snapshot from a state whose steps since can be taken back.
  pub record Restored (st : State) (v r : State) : Type 0 where
    pub like : Similar db r st
    pub entries : r.entries ≡ st.entries
    pub revisions : r.valid_revisions ≡ st.valid_revisions
    pub next : Numbered v r

  pub revert_to_snapshot-Restored :
      (st v : State)
      → Undoable db (snapshot db st).1 v
      → (r : State) × (revert_to_snapshot db (snapshot db st).0 v ≡ some r) × Restored st v r
  unfolding snapshot
  revert_to_snapshot-Restored st v p =
      let id : ℕ = st.next_revision_id in
      let rejournal : State → Option State = λ r. some (record r { entries = st.entries }) in
      let (r, q, like, next) =
        Returns-both (λ r. Similar db r (snapshot db st).1) (Numbered v) (undo_list db p.new v)
          (p.undone v (Similar-refl db v)) (undo_list-Numbered p.new v) in
      let found : search_revision db id v.valid_revisions
          ≡ some (length st.entries, st.valid_revisions) =
        ap (search_revision db id) p.revisions
        ∙ search_revision-append id (length st.entries) p.revs st.valid_revisions p.above in
      let count : length v.entries - length st.entries ≡ length p.new =
        let n = ap length p.entries in let m = length-append p.new st.entries in omega arith in
      let undone : undo db (length v.entries - length st.entries) v.entries v
          ≡ some (record r { entries = st.entries }) =
        ap (λ k. undo db k v.entries v) count
        ∙ ap (λ es. undo db (length p.new) es v) p.entries
        ∙ undo-undo_list p.new st.entries v
        ∙ ap (λ o. o >>= rejournal) q in
      (
        record r { entries = st.entries; valid_revisions = st.valid_revisions },
        unfold revert_to_snapshot in rw found (rw undone refl),
        record {
          like =
              Similar-trans db (journal-Similar r st.entries st.valid_revisions r.next_revision_id)
                (Similar-trans db like
                  (journal-Similar st st.entries (snapshot db st).1.valid_revisions (id + 1)));
          entries = refl;
          revisions = refl;
          next = next;
        },
      )
