-- ===== src/StateDb/Undo.antt =====
-- Steps that the journal can take back: undoing the entries that a step wrote, on any state that reads
-- like the one after it, gives a state that reads like the one before.
use pangu.Prelude.{
  ℕ, ◌≡◌, ◌≤◌, refl, sym, subst, ap, ◌∙◌, Bool, false, Option, none, some, List, [], ◌∷◌, ◌++◌,
  ◌>>=◌, ◌==◌, ==_iff, if◌then◌else◌, arith, Bool-cases, inl, inr, Returns, Returns-bind, All,
  All-append, All-imp, append_assoc,
}
use pangu.AccessList.Laws.{IsValid}
use pangu.StateObject.{Database, StateObject}
use pangu.StateDb.{Entry, State, dirtied, append, set_state_object, find, get_deleted_state_object}
use pangu.StateDb.Journal.{drop_dirty, revert_entry}
use pangu.StateDb.Similar.{view_of, see, peek, Similar, Similar-trans, peek-some}

-- The decrement undoes the increment.
pub drop_dirty-append :
    (e : Entry) (r st : State) (b : ℕ)
    → r.dirties b ≡ (append e st).dirties b
    → (drop_dirty e r).dirties b ≡ st.dirties b
unfolding drop_dirty append
drop_dirty-append e r st b h = go (dirtied e) refl
  where
    go : (o : Option ℕ) → (dirtied e ≡ o) → (drop_dirty e r).dirties b ≡ st.dirties b
    go none d = ground arith
    go (some a) d = ground arith

module _ (db : Database) where
  unfoldable pub undo_list : List Entry → State → Option State
  unfolding drop_dirty
  undo_list [] s = some s
  undo_list (e ∷ es) s = revert_entry db e s >>= λ r. undo_list es (drop_dirty e r)

  pub record Undoable (st st' : State) : Type 0 where
    pub new : List Entry
    pub entries : st'.entries ≡ new ++ st.entries
    pub undone : (s : State) → Similar db s st' → Returns (λ r. Similar db r st) (undo_list new s)
    pub valid : IsValid st.access_list → IsValid st'.access_list
    pub revs : List (ℕ × ℕ)
    pub revisions : st'.valid_revisions ≡ revs ++ st.valid_revisions
    pub above : All (λ r. st.next_revision_id ≤ r.0) revs
    pub later : st.next_revision_id ≤ st'.next_revision_id

  pub undo_list-append :
      (es fs : List Entry) (s : State) → undo_list (es ++ fs) s ≡ (undo_list es s >>= undo_list fs)
  unfolding undo_list
  undo_list-append [] fs s = refl
  undo_list-append (e ∷ es) fs s =
      go (revert_entry db e s) (λ r. undo_list-append es fs (drop_dirty e r))
    where
      go :
          (o : Option State)
          → ((r : State)
              → undo_list (es ++ fs) (drop_dirty e r)
                ≡ (undo_list es (drop_dirty e r) >>= undo_list fs))
          → (o >>= λ r. undo_list (es ++ fs) (drop_dirty e r))
            ≡ ((o >>= λ r. undo_list es (drop_dirty e r)) >>= undo_list fs)
      go none ih = refl
      go (some r) ih = ih r

  pub Undoable-trans : {st u st' : State} → Undoable st u → Undoable u st' → Undoable st st'
  Undoable-trans {st} {u} {st'} p q = record {
    new = q.new ++ p.new;
    entries =
        q.entries ∙ ap (λ es. q.new ++ es) p.entries ∙ sym (append_assoc q.new p.new st.entries);
    undone = λ s h.
        rw (undo_list-append q.new p.new s)
          (Returns-bind _ _ (undo_list q.new s) (undo_list p.new) (q.undone s h) p.undone);
    valid = λ v. q.valid (p.valid v);
    revs = q.revs ++ p.revs;
    revisions =
        q.revisions
        ∙ ap (λ rs. q.revs ++ rs) p.revisions
        ∙ sym (append_assoc q.revs p.revs st.valid_revisions);
    above = All-append _ q.revs p.revs (All-imp _ _ (λ r c. omega arith) q.revs q.above) p.above;
    later = omega arith;
  }

  -- A step that no read sees.
  pub Similar-Undoable :
      (st st' : State)
      → Similar db st' st
      → st'.entries ≡ st.entries
      → st'.valid_revisions ≡ st.valid_revisions
      → st.next_revision_id ≤ st'.next_revision_id
      → Undoable st st'
  unfolding undo_list
  Similar-Undoable st st' like es rs n = record {
    new = [];
    entries = es;
    undone = λ s h. Similar-trans db h like;
    valid = subst IsValid (sym like.access_list);
    revs = [];
    revisions = rs;
    above = tt;
    later = n;
  }

  -- A step that writes one entry.
  pub entry-Undoable :
      (e : Entry) (st st' : State)
      → st'.entries ≡ e ∷ st.entries
      → st'.valid_revisions ≡ st.valid_revisions
      → st'.next_revision_id ≡ st.next_revision_id
      → (IsValid st.access_list → IsValid st'.access_list)
      → ((s : State)
          → Similar db s st'
          → (r : State) × (revert_entry db e s ≡ some r) × Similar db (drop_dirty e r) st)
      → Undoable st st'
  unfolding undo_list
  entry-Undoable e st st' es rs n v back = record {
    new = e ∷ [];
    entries = es;
    undone = λ s h. let (r, f, like) = back s h in rw (f, Returns) like;
    valid = v;
    revs = [];
    revisions = rs;
    above = tt;
    later = omega arith;
  }

  pub peek_with :
      (s t : State) (b : ℕ)
      → s.objects_destruct b ≡ t.objects_destruct b
      → find db s b ≡ find db t b
      → peek db s b ≡ peek db t b
  unfolding peek
  peek_with s t b d f = rw (d, f) refl

  find-objects : (s t : State) (b : ℕ) → s.objects ≡ t.objects → find db s b ≡ find db t b
  unfolding find
  find-objects s t b h = rw h refl

  -- States with the same objects, beside which the others differ.
  pub reads_beside :
      (r s w st : State)
      → r.objects ≡ s.objects
      → r.objects_destruct ≡ s.objects_destruct
      → w.objects ≡ st.objects
      → w.objects_destruct ≡ st.objects_destruct
      → ((b : ℕ) → peek db s b ≡ peek db w b)
      → (b : ℕ) → peek db r b ≡ peek db st b
  reads_beside r s w st f d g e like b =
      peek_with r s b (ap (λ t. t b) d) (find-objects r s b f)
      ∙ like b
      ∙ peek_with w st b (ap (λ t. t b) e) (find-objects w st b g)

  pub peek_at :
      (s : State) (a : ℕ) (d : Bool) (y : Option StateObject)
      → s.objects_destruct a ≡ d
      → find db s a ≡ y
      → peek db s a ≡ see db a d y
  unfolding peek
  peek_at s a d y p f = rw (p, f) refl

  -- `w` differs from `st` at one address, `s` reads like `w`, and `r` differs from `s` at that address,
  -- where it reads like `st`: it reads like `st` everywhere.
  pub reads_back :
      (r s w st : State) (a : ℕ) (y f : Option StateObject)
      → ((b : ℕ) → find db r b ≡ (if b == a then y else find db s b))
      → ((b : ℕ) → find db w b ≡ (if b == a then f else find db st b))
      → ((b : ℕ) → (b == a) ≡ false → r.objects_destruct b ≡ s.objects_destruct b)
      → ((b : ℕ) → (b == a) ≡ false → w.objects_destruct b ≡ st.objects_destruct b)
      → ((b : ℕ) → peek db s b ≡ peek db w b)
      → see db a (r.objects_destruct a) y ≡ peek db st a
      → (b : ℕ) → peek db r b ≡ peek db st b
  reads_back r s w st a y f found there marked unmarked like seen b = elim (Bool-cases (b == a)) [
    | inl same ↦
        let b_is_a : b ≡ a = (==_iff b a).0 same in
        let at_b : find db r b ≡ y = found b ∙ ap (λ t. if t then y else find db s b) same in
        subst (λ c. peek db r c ≡ peek db st c) (sym b_is_a)
          (peek_at r a (r.objects_destruct a) y refl (subst (λ c. find db r c ≡ y) b_is_a at_b)
            ∙ seen)
    | inr other ↦
        peek_with r s b (marked b other) (found b ∙ ap (λ t. if t then y else find db s b) other)
        ∙ like b
        ∙ peek_with w st b (unmarked b other)
            (there b ∙ ap (λ t. if t then f else find db st b) other)
  ]

  -- An object that is written where one was, and the journal, change the other reads of no account.
  pub find-written :
      (st : State) (a b : ℕ) (o : StateObject) (e : Entry)
      → find db (set_state_object (append e st) a o) b ≡ (if b == a then some o else find db st b)
  unfolding find append set_state_object
  find-written st a b o e = ground arith

  find-returned :
      (s : State) (a b : ℕ) (y : StateObject) (e : Entry)
      → find db (drop_dirty e (set_state_object (get_deleted_state_object db s a).1 a y)) b
        ≡ (if b == a then some y else find db s b)
  unfolding find drop_dirty get_deleted_state_object set_state_object
  find-returned s a b y e = ground arith

  -- The reads after the object has been written back.
  written_back :
      (st s : State) (a : ℕ) (o o' y : StateObject) (e : Entry)
      → find db st a ≡ some o
      → Similar db s (set_state_object (append e st) a o')
      → view_of db a (st.objects_destruct a) y ≡ view_of db a (st.objects_destruct a) o
      → (b : ℕ)
      → peek db (drop_dirty e (set_state_object (get_deleted_state_object db s a).1 a y)) b
        ≡ peek db st b
  unfolding drop_dirty append set_state_object get_deleted_state_object
  written_back st s a o o' y e here like seen =
      reads_back (drop_dirty e (set_state_object (get_deleted_state_object db s a).1 a y)) s
        (set_state_object (append e st) a o') st a (some y) (some o') (λ b. find-returned s a b y e)
        (λ b. find-written st a b o' e) (λ b n. refl) (λ b n. refl) like.same
        (ap (λ d. see db a d (some y)) (like.destruct a)
          ∙ ap some seen
          ∙ sym (peek_at st a (st.objects_destruct a) (some o) refl here))

  -- A write to one object, with an entry whose reversal writes `back`.
  pub write-Undoable :
      (st : State) (a : ℕ) (o o' : StateObject) (e : Entry) (back : StateObject → StateObject)
      → find db st a ≡ some o
      → o'.deleted ≡ false
      → ((x : StateObject)
          → view_of db a (st.objects_destruct a) x ≡ view_of db a (st.objects_destruct a) o'
          → view_of db a (st.objects_destruct a) (back x) ≡ view_of db a (st.objects_destruct a) o)
      → ((s : State) (x : StateObject)
          → find db s a ≡ some x
          → x.deleted ≡ false
          → revert_entry db e s
            ≡ some (set_state_object (get_deleted_state_object db s a).1 a (back x)))
      → Undoable st (set_state_object (append e st) a o')
  unfolding append set_state_object
  write-Undoable st a o o' e back here alive undo step =
      let written : State = set_state_object (append e st) a o' in
      entry-Undoable e st written refl refl refl (λ v. v)
        (λ s h.
          let put : find db written a ≡ some o' =
            find-written st a a o' e
            ∙ ap (λ t. if t then some o' else find db st a) ((==_iff a a).1 refl) in
          let (x, found, view) = peek-some db s written a o' (h.same a) put in
          let view' : view_of db a (st.objects_destruct a) x
              ≡ view_of db a (st.objects_destruct a) o' =
            subst (λ d. view_of db a d x ≡ view_of db a (st.objects_destruct a) o') (h.destruct a)
              view in
          let x_alive : x.deleted ≡ false = unfold view_of in ap (λ v. v.deleted) view' ∙ alive in
          (
            set_state_object (get_deleted_state_object db s a).1 a (back x),
            step s x found x_alive,
            unfold drop_dirty in
                unfold get_deleted_state_object in
                record {
                  same = written_back st s a o o' (back x) e here h (undo x view');
                  destruct = h.destruct;
                  refund = h.refund;
                  thash = h.thash;
                  logs = h.logs;
                  log_size = h.log_size;
                  preimages = h.preimages;
                  access_list = h.access_list;
                  transient = h.transient;
                  dirties = λ b n. drop_dirty-append e s st b (h.dirties b n);
                },
          ))
