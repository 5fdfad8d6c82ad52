-- ===== src/StateDb/Objects.antt =====
-- Loading and creating objects: the journal takes the creation back.
use pangu.Prelude.{
  ℕ, ◌≡◌, refl, sym, ap, ◌∙◌, Bool, true, false, Option, none, some, ◌==◌, ==_iff, if◌then◌else◌,
  arith, Bool-cases, inl, inr,
}
use pangu.World.{update}
use pangu.StateObject.{Database, StateObject, fresh}
use pangu.StateDb.{
  Entry, create_object_change, reset_object_change, State, append, set_state_object, find,
  get_deleted_state_object, note_creation, create_object,
}
use pangu.StateDb.Journal.{drop_dirty, revert_entry}
use pangu.StateDb.Similar.{view_of, see, peek, Similar, find-load, find-set}
use pangu.StateDb.Undo.{
  Undoable, Undoable-trans, Similar-Undoable, entry-Undoable, drop_dirty-append, peek_with, peek_at,
  reads_back,
}

module _ (db : Database) where
  -- A state that differs in the objects only, and in none of their reads.
  objects-Similar :
      (st : State) (f : ℕ → Option StateObject)
      → ((b : ℕ) → peek db (record st { objects = f }) b ≡ peek db st b)
      → Similar db (record st { objects = f }) st
  objects-Similar st f h = record {
    same = h;
    destruct = λ a. refl;
    refund = refl;
    thash = refl;
    logs = λ a. refl;
    log_size = refl;
    preimages = λ a. refl;
    access_list = refl;
    transient = λ a key. refl;
    dirties = λ a n. refl;
  }

  pub load-Undoable : (st : State) (a : ℕ) → Undoable db st (get_deleted_state_object db st a).1
  unfolding get_deleted_state_object
  load-Undoable st a =
      Similar-Undoable db st _
        (objects-Similar st _
          (λ b. peek_with db (get_deleted_state_object db st a).1 st b refl (find-load db st a b)))
        refl refl (omega arith)

  -- An object is replaced by one that reads the same.
  pub cache-Undoable :
      (st : State) (a : ℕ) (o o' : StateObject)
      → find db st a ≡ some o
      → view_of db a (st.objects_destruct a) o' ≡ view_of db a (st.objects_destruct a) o
      → Undoable db st (set_state_object st a o')
  unfolding set_state_object
  cache-Undoable st a o o' here seen =
      Similar-Undoable db st _
        (objects-Similar st _ (
          reads_back db (set_state_object st a o') st st st a (some o') (some o)
            (λ b. find-set db st a b o') there (λ b n. refl) (λ b n. refl) (λ b. refl)
            (ap some seen ∙ sym (peek_at db st a (st.objects_destruct a) (some o) refl here))))
        refl refl (omega arith)
    where
      there : (b : ℕ) → find db st b ≡ (if b == a then some o else find db st b)
      there b = elim (Bool-cases (b == a)) [
        | inl t ↦
            let b_is_a : b ≡ a = (==_iff b a).0 t in
            ap (find db st) b_is_a ∙ here ∙ sym (ap (λ t. if t then some o else find db st b) t)
        | inr t ↦ sym (ap (λ t. if t then some o else find db st b) t)
      ]

  account_none : (st : State) (a : ℕ) → find db st a ≡ none → db.account a ≡ none
  unfolding find
  account_none st a h = ground arith

  -- The object is taken away again, and nothing is there below it.
  find-removed :
      (s : State) (a b : ℕ) (d : ℕ → Bool) (e : Entry)
      → db.account a ≡ none
      → find db (drop_dirty e (record s { objects = update s.objects a none; objects_dirty = d })) b
        ≡ (if b == a then none else find db s b)
  unfolding find drop_dirty
  find-removed s a b d e h = elim (Bool-cases (b == a)) [
    | inl t ↦
        let b_is_a : b ≡ a = (==_iff b a).0 t in let h' = ap db.account b_is_a ∙ h in ground arith
    | inr t ↦ ground arith
  ]

  pub find-noted :
      (st : State) (a b : ℕ) (f : Option StateObject) (o : StateObject)
      → find db (set_state_object (note_creation db st a f) a o) b
        ≡ (if b == a then some o else find db st b)
  unfolding find note_creation append set_state_object
  find-noted st a b none o = ground arith
  find-noted st a b (some prev) o = ground arith

  abbrev removed : State → ℕ → State
  removed s a = record s {
    objects = update s.objects a none;
    objects_dirty = update s.objects_dirty a false;
  }

  abbrev restored : State → ℕ → StateObject → Bool → State
  restored s a prev d = record s {
    objects = update s.objects a (some prev);
    objects_destruct = if d then s.objects_destruct else update s.objects_destruct a false;
  }

  find-restored :
      (s : State) (a b : ℕ) (prev : StateObject) (d : Bool) (e : Entry)
      → find db (drop_dirty e (restored s a prev d)) b ≡ (if b == a then some prev else find db s b)
  unfolding find drop_dirty
  find-restored s a b prev d e = ground arith

  destruct-restored :
      (st s : State) (a b : ℕ)
      → s.objects_destruct b ≡ update st.objects_destruct a true b
      → (if st.objects_destruct a then s.objects_destruct else update s.objects_destruct a false) b
        ≡ st.objects_destruct b
  destruct-restored st s a b h = elim (Bool-cases (b == a)) [
    | inl t ↦
        let b_is_a : b ≡ a = (==_iff b a).0 t in
        let same : st.objects_destruct b ≡ st.objects_destruct a = ap st.objects_destruct b_is_a in
        ground arith
    | inr t ↦ ground arith
  ]

  -- A new object, over none or over the one before.
  pub place-Undoable :
      (st : State) (a : ℕ) (f : Option StateObject) (o : StateObject)
      → find db st a ≡ f
      → Undoable db st (set_state_object (note_creation db st a f) a o)
  unfolding note_creation append set_state_object
  place-Undoable st a none o here =
      let after : State = set_state_object (note_creation db st a none) a o in
      let e : Entry = create_object_change a in
      entry-Undoable db e st after refl refl refl (λ v. v)
        (λ s h. (
          removed s a,
          unfold revert_entry in refl,
          unfold drop_dirty in
              record {
                same =
                    reads_back db (drop_dirty e (removed s a)) s after st a none (some o)
                      (λ b.
                        find-removed s a b (update s.objects_dirty a false) e
                          (account_none st a here))
                      (λ b. find-noted st a b none o) (λ b n. refl) (λ b n. refl) h.same
                      (sym (peek_at db st a (st.objects_destruct a) none refl here));
                destruct = h.destruct;
                refund = h.refund;
                thash = h.thash;
                logs = h.logs;
                log_size = h.log_size;
                preimages = h.preimages;
                access_list = h.access_list;
                transient = h.transient;
                dirties = λ b n. drop_dirty-append e s st b (h.dirties b n);
              },
        ))
  place-Undoable st a (some prev) o here =
      let d : Bool = st.objects_destruct a in
      let after : State = set_state_object (note_creation db st a (some prev)) a o in
      let e : Entry = reset_object_change a prev d in
      entry-Undoable db e st after refl refl refl (λ v. v)
        (λ s h.
          let back : State = drop_dirty e (restored s a prev d) in
          let destruct : (b : ℕ) → back.objects_destruct b ≡ st.objects_destruct b =
            λ b. unfold drop_dirty in destruct-restored st s a b (h.destruct b) in
          (
            restored s a prev d,
            unfold revert_entry in refl,
            unfold drop_dirty in
                record {
                  same =
                      reads_back db back s after st a (some prev) (some o)
                        (λ b. find-restored s a b prev d e) (λ b. find-noted st a b (some prev) o)
                        (λ b n. unfold drop_dirty in ground arith) (λ b n. ground arith) h.same
                        (ap (λ t. see db a t (some prev)) (destruct a)
                          ∙ sym (peek_at db st a d (some prev) refl here));
                  destruct = destruct;
                  refund = h.refund;
                  thash = h.thash;
                  logs = h.logs;
                  log_size = h.log_size;
                  preimages = h.preimages;
                  access_list = h.access_list;
                  transient = h.transient;
                  dirties = λ b n. drop_dirty-append e s st b (h.dirties b n);
                },
          ))

  pub create_object-Undoable : (st : State) (a : ℕ) → Undoable db st (create_object db st a).1
  unfolding create_object get_deleted_state_object
  create_object-Undoable st a = Undoable-trans db (load-Undoable st a) (
      place-Undoable (get_deleted_state_object db st a).1 a (find db st a) (fresh db)
        (find-load db st a a))
