-- ===== src/StateDb/Values.antt =====
-- The values beside the objects: each operation on the refund, the logs, the preimages, the transient
-- storage and the access list can be taken back from the journal.
use pangu.Prelude.{
  ℕ, ◌+◌, ◌-◌, ◌%◌, ◌≡◌, refl, sym, subst, ap, ◌∙◌, Bool, true, false, Option, none, some, List, [],
  ◌∷◌, ◌++◌, ◌==◌, ==_iff, ltb, if◌then◌else◌, arith, Bool-cases, inl, inr,
}
use pangu.World.{update}
use pangu.Evm.{u64}
use pangu.StateObject.{Database}
use pangu.StateDb.{
  Log, Entry, refund_change, add_log_change, add_preimage_change, transient_storage_change, State,
  append, add_refund, sub_refund, add_log, add_preimage, set_transient_state,
}
use pangu.StateDb.Journal.{drop_last, drop_dirty, revert_entry}
use pangu.StateDb.Similar.{Similar-refl}
use pangu.StateDb.Steps.{if-Undoable}
use pangu.StateDb.Undo.{Undoable, Similar-Undoable, entry-Undoable, reads_beside}

drop_last-append : (ls : List Log) (l : Log) → drop_last (ls ++ (l ∷ [])) ≡ some ls
unfolding drop_last
drop_last-append [] l = refl
drop_last-append (k ∷ []) l = refl
drop_last-append (k ∷ j ∷ ls) l =
    ap (λ o. elim o [ none ↦ none | some ms ↦ some (k ∷ ms) ]) (drop_last-append (j ∷ ls) l)

if-some : (b : Bool) (u v : State) → (if b then none else some u) ≡ some v → u ≡ v
if-some true u v h = ground arith
if-some false u v h = ground arith

update_at {ℓ} : {A : Type ℓ} → (f : ℕ → A) (k : ℕ) (v : A) → update f k v k ≡ v
update_at f k v = ap (λ t. if t then v else f k) ((==_iff k k).1 refl)

-- An old value put back where another one was written.
update_undo {ℓ} :
    {A : Type ℓ}
    → (f g : ℕ → A) (k : ℕ) (v : A) → ((b : ℕ) → g b ≡ update f k v b)
    → (b : ℕ) → update g k (f k) b ≡ f b
update_undo f g k v h b = elim (Bool-cases (b == k)) [
  | inl t ↦ ap (λ c. if c then f k else g b) t ∙ sym (ap f ((==_iff b k).0 t))
  | inr t ↦ ap (λ c. if c then f k else g b) t ∙ h b ∙ ap (λ c. if c then v else f b) t
]

update2_undo :
    (f g : ℕ → ℕ → ℕ) (a k v : ℕ)
    → ((b c : ℕ) → g b c ≡ update f a (update (f a) k v) b c)
    → (b c : ℕ) → update g a (update (g a) k (f a k)) b c ≡ f b c
update2_undo f g a k v h b c = elim (Bool-cases (b == a)) [
  | inl t ↦
      let b_is_a : b ≡ a = (==_iff b a).0 t in
      ap (λ t. (if t then update (g a) k (f a k) else g b) c) t
      ∙ update_undo (f a) (g a) k v (λ d. h a d ∙ ap (λ q. q d) (update_at f a (update (f a) k v)))
          c
      ∙ sym (ap (λ x. f x c) b_is_a)
  | inr t ↦
      ap (λ t. (if t then update (g a) k (f a k) else g b) c) t
      ∙ h b c
      ∙ ap (λ t. (if t then update (f a) k v else f b) c) t
]

module _ (db : Database) where
  -- The refund is set, as the code sets it up or down.
  refund-Undoable :
      (st : State) (amount : ℕ)
      → Undoable db st (record (append (refund_change st.refund) st) { refund = amount })
  unfolding append
  refund-Undoable st amount =
      let e : Entry = refund_change st.refund in
      let after : State = record (append e st) { refund = amount } in
      entry-Undoable db e st after refl refl refl (λ v. v)
        (λ s h.
          let back : State = record s { refund = st.refund } in
          (
            back,
            unfold revert_entry in refl,
            unfold drop_dirty in
                record {
                  same = reads_beside db (drop_dirty e back) s after st refl refl refl refl h.same;
                  destruct = h.destruct;
                  refund = refl;
                  thash = h.thash;
                  logs = h.logs;
                  log_size = h.log_size;
                  preimages = h.preimages;
                  access_list = h.access_list;
                  transient = h.transient;
                  dirties = h.dirties;
                },
          ))

  pub add_refund-Undoable : (st : State) (gas : ℕ) → Undoable db st (add_refund db st gas)
  unfolding add_refund append
  add_refund-Undoable st gas = refund-Undoable st ((st.refund + gas) % u64)

  pub sub_refund-Undoable :
      (st : State) (gas : ℕ) {st' : State} → sub_refund db st gas ≡ some st' → Undoable db st st'
  unfolding sub_refund append
  sub_refund-Undoable st gas {st'} h =
      subst (Undoable db st) (if-some (ltb st.refund gas) _ st' h)
        (refund-Undoable st (st.refund - gas))

  log_step :
      (s : State) (h : ℕ) (ls : List Log)
      → drop_last (s.logs h) ≡ some ls
      → revert_entry db (add_log_change h) s
        ≡ some (record s { logs = update s.logs h ls; log_size = s.log_size - 1 })
  unfolding revert_entry
  log_step s h ls e = rw (e, revert_entry) refl

  pub add_log-Undoable : (st : State) (content : ℕ) → Undoable db st (add_log db st content)
  unfolding add_log append
  add_log-Undoable st content =
      let log : Log = record { content = content; tx_hash = st.thash; index = st.log_size } in
      let e : Entry = add_log_change st.thash in
      let more : List Log = st.logs st.thash ++ (log ∷ []) in
      entry-Undoable db e st (add_log db st content) refl refl refl (λ v. v)
        (λ s h.
          let back : State = record s {
            logs = update s.logs st.thash (st.logs st.thash);
            log_size = s.log_size - 1;
          } in
          (
            back,
            log_step s st.thash (st.logs st.thash) (
                ap drop_last (h.logs st.thash ∙ update_at st.logs st.thash more)
                ∙ drop_last-append (st.logs st.thash) log),
            unfold drop_dirty in
                record {
                  same =
                      reads_beside db (drop_dirty e back) s (add_log db st content) st refl refl
                        refl refl h.same;
                  destruct = h.destruct;
                  refund = h.refund;
                  thash = h.thash;
                  logs = update_undo st.logs s.logs st.thash more h.logs;
                  log_size = let size = h.log_size in omega arith;
                  preimages = h.preimages;
                  access_list = h.access_list;
                  transient = h.transient;
                  dirties = h.dirties;
                },
          ))

  preimage-Undoable :
      (st : State) (hash : ℕ) (preimage : List ℕ)
      → st.preimages hash ≡ none
      → Undoable db st (record (append (add_preimage_change hash) st) {
        preimages = update st.preimages hash (some preimage);
      })
  unfolding append
  preimage-Undoable st hash preimage new =
      let e : Entry = add_preimage_change hash in
      let after : State = record (append e st) {
        preimages = update st.preimages hash (some preimage);
      } in
      entry-Undoable db e st after refl refl refl (λ v. v)
        (λ s h.
          let back : State = record s { preimages = update s.preimages hash none } in
          (
            back,
            unfold revert_entry in refl,
            unfold drop_dirty in
                record {
                  same = reads_beside db (drop_dirty e back) s after st refl refl refl refl h.same;
                  destruct = h.destruct;
                  refund = h.refund;
                  thash = h.thash;
                  logs = h.logs;
                  log_size = h.log_size;
                  preimages = λ b.
                      ap (λ o. update s.preimages hash o b) (sym new)
                      ∙ update_undo st.preimages s.preimages hash (some preimage) h.preimages b;
                  access_list = h.access_list;
                  transient = h.transient;
                  dirties = h.dirties;
                },
          ))

  pub add_preimage-Undoable :
      (st : State) (hash : ℕ) (preimage : List ℕ)
      → Undoable db st (add_preimage db st hash preimage)
  unfolding add_preimage append
  add_preimage-Undoable st hash preimage = go (st.preimages hash) refl
    where
      go :
          (o : Option (List ℕ))
          → st.preimages hash ≡ o
          → Undoable db st (elim o [
            | some _ ↦ st
            | none ↦ record (append (add_preimage_change hash) st) {
              preimages = update st.preimages hash (some preimage);
            }
          ])
      go none h = preimage-Undoable st hash preimage h
      go (some _) h = Similar-Undoable db st st (Similar-refl db st) refl refl (omega arith)

  transient-Undoable :
      (st : State) (a key value : ℕ)
      → Undoable db st (record (append (transient_storage_change a key (st.transient a key)) st) {
        transient = update st.transient a (update (st.transient a) key value);
      })
  unfolding append
  transient-Undoable st a key value =
      let was : ℕ = st.transient a key in
      let e : Entry = transient_storage_change a key was in
      let after : State = record (append e st) {
        transient = update st.transient a (update (st.transient a) key value);
      } in
      entry-Undoable db e st after refl refl refl (λ v. v)
        (λ s h.
          let back : State = record s {
            transient = update s.transient a (update (s.transient a) key was);
          } in
          (
            back,
            unfold revert_entry in refl,
            unfold drop_dirty in
                record {
                  same = reads_beside db (drop_dirty e back) s after st refl refl refl refl h.same;
                  destruct = h.destruct;
                  refund = h.refund;
                  thash = h.thash;
                  logs = h.logs;
                  log_size = h.log_size;
                  preimages = h.preimages;
                  access_list = h.access_list;
                  transient = update2_undo st.transient s.transient a key value h.transient;
                  dirties = h.dirties;
                },
          ))

  pub set_transient_state-Undoable :
      (st : State) (a key value : ℕ) → Undoable db st (set_transient_state db st a key value)
  unfolding set_transient_state append
  set_transient_state-Undoable st a key value =
      if-Undoable db (st.transient a key == value) st _ _
        (Similar-Undoable db st st (Similar-refl db st) refl refl (omega arith))
        (transient-Undoable st a key value)
