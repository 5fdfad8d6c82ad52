-- ===== src/StateDb/Steps.antt =====
-- Each operation on the state can be taken back from the journal.
use pangu.Prelude.{
  ℕ, ◌+◌, ◌≡◌, refl, sym, subst, ap, ◌∙◌, Bool, true, false, Option, none, some, List, ◌==◌,
  if◌then◌else◌, arith, Bool-cases, inl, inr,
}
use pangu.Prelude.Int.{ℤ, pos, ◌+ℤ◌, ◌-ℤ◌}
use pangu.World.{update}
use pangu.StateObject.{
  Database, StateObject, is_zero, is_empty_object, put_balance, put_nonce, put_code, put_state,
  get_state_of, get_code_of,
}
use pangu.StateDb.{
  Entry, suicide_change, balance_change, nonce_change, storage_change, code_change, touch_change,
  State, append, set_state_object, find, get_deleted_state_object, get_state_object,
  get_or_new_state_object, set_balance_of, touch, add_balance, sub_balance, set_balance, set_nonce,
  set_code, set_state, self_destruct,
}
use pangu.StateDb.Journal.{drop_dirty, revert_entry, on_object, get_state, get_code}
use pangu.StateDb.Similar.{view_of, Similar-refl, find-load}
use pangu.StateDb.Undo.{
  Undoable, Undoable-trans, Similar-Undoable, entry-Undoable, write-Undoable, reads_beside,
  drop_dirty-append,
}
use pangu.StateDb.Views.{
  view-get_code, view-get_state, nonce_back, balance_back, state_back, code_back, suicide_back,
}
use pangu.StateDb.Objects.{load-Undoable, cache-Undoable}
use pangu.StateDb.Accounts.{get_or_new-Got, living, living-some, found-living}

module _ (db : Database) where
  on_object-found :
      (a : ℕ) (write : StateObject → StateObject) (s : State) (x : StateObject)
      → find db s a ≡ some x
      → x.deleted ≡ false
      → on_object db a write s
        ≡ some (set_state_object (get_deleted_state_object db s a).1 a (write x))
  unfolding on_object get_state_object get_deleted_state_object
  on_object-found a write s x f alive =
      ap
        (λ g. elim g [
          | none ↦ none
          | some y ↦ some (set_state_object (get_deleted_state_object db s a).1 a (write y))
        ])
        (found-living db (find db s a) x f alive)

  deleted_same :
      (a : ℕ) (d : Bool) (o o' : StateObject)
      → view_of db a d o' ≡ view_of db a d o
      → o'.deleted ≡ o.deleted
  unfolding view_of
  deleted_same a d o o' h = ap (λ v. v.deleted) h

  pub Undoable-refl : (st : State) → Undoable db st st
  Undoable-refl st = Similar-Undoable db st st (Similar-refl db st) refl refl (omega arith)

  pub if-Undoable :
      (b : Bool) (st x y : State)
      → Undoable db st x
      → Undoable db st y
      → Undoable db st (if b then x else y)
  if-Undoable true st x y p q = p
  if-Undoable false st x y p q = q

  balance-Undoable :
      (st : State) (a : ℕ) (o : StateObject) (amount : ℤ)
      → find db st a ≡ some o
      → o.deleted ≡ false
      → Undoable db st (set_balance_of db st a o amount)
  unfolding set_balance_of put_balance
  balance-Undoable st a o amount here alive =
      write-Undoable db st a o (put_balance amount o) (balance_change a o.data_of.balance)
        (put_balance o.data_of.balance) here alive
        (λ x. balance_back db a (st.objects_destruct a) o x amount)
        (λ s x. unfold revert_entry in on_object-found a (put_balance o.data_of.balance) s x)

  pub set_balance-Undoable :
      (st : State) (a : ℕ) (amount : ℤ) → Undoable db st (set_balance db st a amount)
  unfolding set_balance
  set_balance-Undoable st a amount =
      let g = get_or_new-Got db st a in
      Undoable-trans db g.undoable (balance-Undoable _ a _ amount g.here g.alive)

  -- What a touch leaves, with the extra count for the account 3.
  abbrev counted : State → ℕ → State
  unfolding append
  counted st a =
      let st' = append (touch_change a) st in
      record st' {
        dirties = if a == 3 then update st'.dirties a (st'.dirties a + 1) else st'.dirties;
      }

  touched : (st : State) (a : ℕ) → touch db st a ≡ counted st a
  unfolding touch counted
  touched st a = elim (Bool-cases (a == 3)) [ inl t ↦ rw t refl | inr t ↦ rw t refl ]

  counted-dirties :
      (st : State) (a b : ℕ)
      → (b == 3) ≡ false
      → (counted st a).dirties b ≡ (append (touch_change a) st).dirties b
  unfolding counted append
  counted-dirties st a b n = ground arith

  counted-Undoable : (st : State) (a : ℕ) → Undoable db st (counted st a)
  unfolding append counted
  counted-Undoable st a =
      let e : Entry = touch_change a in
      entry-Undoable db e st (counted st a) refl refl refl (λ v. v)
        (λ s h. (
          s,
          unfold revert_entry in refl,
          unfold drop_dirty in
              record {
                same =
                    reads_beside db (drop_dirty e s) s (counted st a) st refl refl refl refl h.same;
                destruct = h.destruct;
                refund = h.refund;
                thash = h.thash;
                logs = h.logs;
                log_size = h.log_size;
                preimages = h.preimages;
                access_list = h.access_list;
                transient = h.transient;
                dirties =
                    λ b n. drop_dirty-append e s st b (h.dirties b n ∙ counted-dirties st a b n);
              },
        ))

  touch-Undoable : (st : State) (a : ℕ) → Undoable db st (touch db st a)
  touch-Undoable st a = subst (Undoable db st) (sym (touched st a)) (counted-Undoable st a)

  pub add_balance-Undoable :
      (st : State) (a : ℕ) (amount : ℤ) → Undoable db st (add_balance db st a amount)
  unfolding add_balance
  add_balance-Undoable st a amount =
      let g = get_or_new-Got db st a in
      let (o, u) = get_or_new_state_object db st a in
      Undoable-trans db g.undoable (
        if-Undoable (is_zero amount) u _ _
          (if-Undoable (is_empty_object db o) u _ _ (touch-Undoable u a) (Undoable-refl u))
          (balance-Undoable u a o (o.data_of.balance +ℤ amount) g.here g.alive))

  pub sub_balance-Undoable :
      (st : State) (a : ℕ) (amount : ℤ) → Undoable db st (sub_balance db st a amount)
  unfolding sub_balance
  sub_balance-Undoable st a amount =
      let g = get_or_new-Got db st a in
      let (o, u) = get_or_new_state_object db st a in
      Undoable-trans db g.undoable (
        if-Undoable (is_zero amount) u _ _ (Undoable-refl u)
          (balance-Undoable u a o (o.data_of.balance -ℤ amount) g.here g.alive))

  pub set_nonce-Undoable : (st : State) (a nonce : ℕ) → Undoable db st (set_nonce db st a nonce)
  unfolding set_nonce put_nonce
  set_nonce-Undoable st a nonce =
      let g = get_or_new-Got db st a in
      let (o, u) = get_or_new_state_object db st a in
      Undoable-trans db g.undoable (
        write-Undoable db u a o (put_nonce nonce o) (nonce_change a o.data_of.nonce)
          (put_nonce o.data_of.nonce) g.here g.alive
          (λ x. nonce_back db a (u.objects_destruct a) o x nonce)
          (λ s x. unfold revert_entry in on_object-found a (put_nonce o.data_of.nonce) s x))

  pub set_code-Undoable :
      (st : State) (a : ℕ) (code : List ℕ) → Undoable db st (set_code db st a code)
  unfolding set_code put_code
  set_code-Undoable st a code =
      let g = get_or_new-Got db st a in
      let (o, u) = get_or_new_state_object db st a in
      let d = u.objects_destruct a in
      let (prev, o') = get_code_of db o in
      let hash = o'.data_of.code_hash in
      Undoable-trans db g.undoable (
        write-Undoable db u a o (put_code (db.keccak256 code) (some code) o')
          (code_change a prev hash) (put_code hash prev) g.here
          (deleted_same a d o o' (view-get_code db a d o) ∙ g.alive)
          (λ x. code_back db a d o x (db.keccak256 code) (some code))
          (λ s x. unfold revert_entry in on_object-found a (put_code hash prev) s x))

  pub set_state-Undoable :
      (st : State) (a key value : ℕ) → Undoable db st (set_state db st a key value)
  unfolding set_state put_state
  set_state-Undoable st a key value =
      let g = get_or_new-Got db st a in
      let (o, u) = get_or_new_state_object db st a in
      let d = u.objects_destruct a in
      let (was, o') = get_state_of db a d o key in
      Undoable-trans db g.undoable (
        if-Undoable (was == value) u _ _
          (cache-Undoable db u a o o' g.here (view-get_state db a d key o))
          (write-Undoable db u a o (put_state key value o') (storage_change a key was)
            (put_state key was) g.here
            (deleted_same a d o o' (view-get_state db a d key o) ∙ g.alive)
            (λ x. state_back db a d o x key value)
            (λ s x. unfold revert_entry in on_object-found a (put_state key was) s x)))

  -- An operation on the object that is there, if one is.
  on_living :
      (st u : State) (f g : Option StateObject) (k : StateObject → State)
      → living db f ≡ g
      → Undoable db st u
      → ((x : StateObject) → f ≡ some x → x.deleted ≡ false → Undoable db u (k x))
      → Undoable db st (elim g [ none ↦ u | some x ↦ k x ])
  on_living st u f none k h p q = p
  on_living st u f (some x) k h p q =
      let (here, alive) = living-some db f x h in Undoable-trans db p (q x here alive)

  suicide-step :
      (a : ℕ) (b : Bool) (was : ℤ) (s : State) (x : StateObject)
      → find db s a ≡ some x
      → x.deleted ≡ false
      → revert_entry db (suicide_change a b was) s
        ≡ some (
            set_state_object
              (get_deleted_state_object db s a).1
              a
              (put_balance was (record x { suicided = b })))
  unfolding revert_entry get_state_object get_deleted_state_object
  suicide-step a b was s x f alive =
      let u = (get_deleted_state_object db s a).1 in
      ap
        (λ g. elim g [
          | none ↦ some u
          | some y ↦ some (set_state_object u a (put_balance was (record y { suicided = b })))
        ])
        (found-living db (find db s a) x f alive)

  pub self_destruct-Undoable : (st : State) (a : ℕ) → Undoable db st (self_destruct db st a)
  unfolding self_destruct get_state_object get_deleted_state_object put_balance
  self_destruct-Undoable st a =
      let u = (get_deleted_state_object db st a).1 in
      on_living st u (find db st a) (living db (find db st a)) _ refl (load-Undoable db st a)
        (λ x here alive.
          write-Undoable db u a x (put_balance (pos 0) (record x { suicided = true }))
            (suicide_change a x.suicided x.data_of.balance)
            (λ y. put_balance x.data_of.balance (record y { suicided = x.suicided }))
            (find-load db st a a ∙ here) alive (λ y. suicide_back db a (u.objects_destruct a) x y)
            (suicide-step a x.suicided x.data_of.balance))

  -- A read of the object that is there, if one is.
  read_living {ℓ} :
      {A : Type ℓ}
      → (st u : State) (f g : Option StateObject) (z : A) (k : StateObject → A × State)
      → living db f ≡ g
      → Undoable db st u
      → ((x : StateObject) → f ≡ some x → Undoable db u (k x).1)
      → Undoable db st (elim g as (λ g. A × State) [ none ↦ (z, u) | some x ↦ k x ]).1
  read_living st u f none z k h p q = p
  read_living st u f (some x) z k h p q = Undoable-trans db p (q x (living-some db f x h).0)

  pub get_state-Undoable : (st : State) (a key : ℕ) → Undoable db st (get_state db st a key).1
  unfolding get_state get_state_object get_deleted_state_object
  get_state-Undoable st a key =
      let u = (get_deleted_state_object db st a).1 in
      read_living st u (find db st a) (living db (find db st a)) 0 _ refl (load-Undoable db st a)
        (λ x here.
          cache-Undoable db u a x _ (find-load db st a a ∙ here)
            (view-get_state db a (u.objects_destruct a) key x))

  pub get_code-Undoable : (st : State) (a : ℕ) → Undoable db st (get_code db st a).1
  unfolding get_code get_state_object get_deleted_state_object
  get_code-Undoable st a =
      let u = (get_deleted_state_object db st a).1 in
      read_living st u (find db st a) (living db (find db st a)) none _ refl (load-Undoable db st a)
        (λ x here.
          cache-Undoable db u a x _ (find-load db st a a ∙ here)
            (view-get_code db a (u.objects_destruct a) x))
