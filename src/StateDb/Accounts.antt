-- ===== src/StateDb/Accounts.antt =====
-- The object that an operation on an account starts from, and `CreateAccount`.
use pangu.Prelude.{
  ℕ, ◌≡◌, refl, sym, subst, ap, ◌∙◌, false, Option, none, some, ==_iff, if◌then◌else◌, arith,
}
use mathlib.Core.Path.{fun_ext}
use pangu.World.{update}
use pangu.StateObject.{Database, StateObject, new_object, fresh, put_balance}
use pangu.StateDb.{
  State, set_state_object, find, get_deleted_state_object, get_state_object, note_creation,
  create_object, get_or_new_state_object, create_account,
}
use pangu.StateDb.Similar.{find-load}
use pangu.StateDb.Undo.{Undoable, Undoable-trans}
use pangu.StateDb.Objects.{load-Undoable, place-Undoable, create_object-Undoable, find-noted}

module _ (db : Database) where
  set_twice :
      (st : State) (a : ℕ) (x y : StateObject)
      → set_state_object (set_state_object st a x) a y ≡ set_state_object st a y
  unfolding set_state_object
  set_twice st a x y =
      ap (λ f. record st { objects = f })
        (fun_ext {f = update (update st.objects a (some x)) a (some y)} (λ b. ground arith))

  abbrev pub living : Option StateObject → Option StateObject
  living f = elim f [ none ↦ none | some x ↦ if x.deleted then none else some x ]

  -- `createAccount` places one object: a new one, or one with the balance of the object before.
  account_placed :
      (u : State) (a : ℕ) (g : Option StateObject)
      → (o : StateObject) × (elim g [
        | none ↦ set_state_object u a (fresh db)
        | some x ↦
            set_state_object
              (set_state_object u a (fresh db))
              a
              (put_balance x.data_of.balance (fresh db))
      ]
          ≡ set_state_object u a o)
  account_placed u a none = (fresh db, refl)
  account_placed u a (some x) = (put_balance x.data_of.balance (fresh db), set_twice u a _ _)

  pub create_account-Undoable : (st : State) (a : ℕ) → Undoable db st (create_account db st a)
  unfolding create_account create_object get_deleted_state_object
  create_account-Undoable st a =
      let u = (get_deleted_state_object db st a).1 in
      let (o, h) = account_placed (note_creation db u a (find db st a)) a (living (find db st a)) in
      subst (Undoable db st) (sym h) (
        Undoable-trans db (load-Undoable db st a)
          (place-Undoable db u a (find db st a) o (find-load db st a a)))

  find-created : (st : State) (a : ℕ) → find db (create_object db st a).1 a ≡ some (fresh db)
  unfolding create_object get_deleted_state_object
  find-created st a =
      find-noted db (get_deleted_state_object db st a).1 a a (find db st a) (fresh db)
      ∙ ap (λ t. if t then some (fresh db) else find db (get_deleted_state_object db st a).1 a)
          ((==_iff a a).1 refl)

  -- The object that an operation starts from, in a state that has it.
  pub record Got (st : State) (a : ℕ) (r : StateObject × State) : Type 0 where
    pub undoable : Undoable db st r.1
    pub here : find db r.1 a ≡ some r.0
    pub alive : r.0.deleted ≡ false

  created-Got :
      (st u : State) (a : ℕ) → Undoable db st u → Got st a (fresh db, (create_object db u a).1)
  unfolding new_object
  created-Got st u a load = record {
    undoable = Undoable-trans db load (create_object-Undoable db u a);
    here = find-created u a;
    alive = refl;
  }

  pub living-some :
      (f : Option StateObject) (x : StateObject)
      → living f ≡ some x
      → (f ≡ some x) × (x.deleted ≡ false)
  living-some none x h = ground arith
  living-some (some y) x h = (ground arith, ground arith)

  pub found-living :
      (f : Option StateObject) (x : StateObject)
      → f ≡ some x
      → x.deleted ≡ false
      → living f ≡ some x
  found-living none x h alive = ground arith
  found-living (some y) x h alive = ground arith

  Got-living :
      (st u : State) (a : ℕ) (g : Option StateObject)
      → ((x : StateObject) → g ≡ some x → (find db u a ≡ some x) × (x.deleted ≡ false))
      → Undoable db st u
      → Got st a (elim g [ some x ↦ (x, u) | none ↦ (fresh db, (create_object db u a).1) ])
  Got-living st u a none h load = created-Got st u a load
  Got-living st u a (some x) h load = record {
    undoable = load;
    here = (h x refl).0;
    alive = (h x refl).1;
  }

  pub get_or_new-Got : (st : State) (a : ℕ) → Got st a (get_or_new_state_object db st a)
  unfolding get_or_new_state_object get_state_object get_deleted_state_object
  get_or_new-Got st a =
      let u = (get_deleted_state_object db st a).1 in
      Got-living st u a (living (find db st a))
        (λ x h. let (f, alive) = living-some (find db st a) x h in (find-load db st a a ∙ f, alive))
        (load-Undoable db st a)
