-- ===== src/StateDb/Refine.antt =====
-- The accounts of World are those of the state objects: what `AddBalance` and `SubBalance` do there is
-- what can be read of the state after them.
use pangu.Prelude.{
  ℕ, ◌≡◌, refl, sym, ap, ◌∙◌, Bool, true, false, Option, none, some, ◌==◌, ==_iff, if◌then◌else◌,
  arith, Bool-cases, inl, inr,
}
use pangu.Prelude.Int.{ℤ, pos, ◌+ℤ◌}
use pangu.World as World
use pangu.StateObject.{
  Database, StateObject, new_object, fresh, put_balance, is_zero, is_empty_object,
}
use pangu.StateDb.{
  State, find, get_state_object, get_deleted_state_object, create_object, get_or_new_state_object,
  append, set_balance_of, touch, add_balance, balance_change,
}
use pangu.StateDb.Similar.{find-load}
use pangu.StateDb.Undo.{find-written}
use pangu.StateDb.Objects.{find-noted}
use pangu.StateDb.Accounts.{living, found-living, get_or_new-Got}
use pangu.StateDb.Reads.{exist, get_balance, get_nonce}

module _ (db : Database) where
  -- The object of an account that is there and not deleted.
  abbrev live : State → ℕ → Option StateObject
  live st a = living db (find db st a)

  abbrev balance_in : Option StateObject → ℤ
  balance_in none = pos 0
  balance_in (some o) = o.data_of.balance

  abbrev nonce_in : Option StateObject → ℕ
  nonce_in none = 0
  nonce_in (some o) = o.data_of.nonce

  -- The object that an operation starts from.
  abbrev pub started : Option StateObject → StateObject
  started none = fresh db
  started (some o) = o

  -- It has the values read before, and no other account changes.
  record Begun (st : State) (a : ℕ) (r : StateObject × State) : Type 0 where
    object : r.0 ≡ started (live st a)
    balance : r.0.data_of.balance ≡ balance_in (live st a)
    nonce : r.0.data_of.nonce ≡ nonce_in (live st a)
    others : (b : ℕ) → (b == a) ≡ false → find db r.1 b ≡ find db st b

  created_others :
      (u : State) (a b : ℕ) → (b == a) ≡ false → find db (create_object db u a).1 b ≡ find db u b
  unfolding create_object get_deleted_state_object
  created_others u a b n =
      find-noted db (get_deleted_state_object db u a).1 a b (find db u a) (fresh db)
      ∙ ap (λ t. if t then some (fresh db) else find db (get_deleted_state_object db u a).1 b) n
      ∙ find-load db u a b

  begin :
      (st u : State) (a : ℕ) (g : Option StateObject)
      → live st a ≡ g
      → ((b : ℕ) → find db u b ≡ find db st b)
      → Begun st a (elim g [ some x ↦ (x, u) | none ↦ (fresh db, (create_object db u a).1) ])
  unfolding new_object
  begin st u a none h same = record {
    object = sym (ap started h);
    balance = sym (ap balance_in h);
    nonce = sym (ap nonce_in h);
    others = λ b n. created_others u a b n ∙ same b;
  }
  begin st u a (some x) h same = record {
    object = sym (ap started h);
    balance = sym (ap balance_in h);
    nonce = sym (ap nonce_in h);
    others = λ b n. same b;
  }

  begun : (st : State) (a : ℕ) → Begun st a (get_or_new_state_object db st a)
  unfolding get_or_new_state_object get_state_object get_deleted_state_object
  begun st a =
      begin st (get_deleted_state_object db st a).1 a (live st a) refl (λ b. find-load db st a b)

  -- A state that has one account with an object, and the others as they were.
  record Holds (st : State) (a : ℕ) (amount : ℤ) (st' : State) : Type 0 where
    object : StateObject
    lives : (b : ℕ) → live st' b ≡ (if b == a then some object else live st b)
    balance : object.data_of.balance ≡ balance_in (live st a) +ℤ amount
    nonce : object.data_of.nonce ≡ nonce_in (live st a)
    same : object ≡ put_balance (balance_in (live st a) +ℤ amount) (started (live st a))

  live-written :
      (st u st' : State) (a : ℕ) (o : StateObject)
      → o.deleted ≡ false
      → ((b : ℕ) → find db st' b ≡ (if b == a then some o else find db u b))
      → ((b : ℕ) → (b == a) ≡ false → find db u b ≡ find db st b)
      → (b : ℕ) → live st' b ≡ (if b == a then some o else live st b)
  live-written st u st' a o alive written others b = elim (Bool-cases (b == a)) [
    | inl t ↦
        found-living db (find db st' b) o
          (written b ∙ ap (λ c. if c then some o else find db u b) t) alive
        ∙ sym (ap (λ c. if c then some o else live st b) t)
    | inr t ↦
        ap (living db) (written b ∙ ap (λ c. if c then some o else find db u b) t ∙ others b t)
        ∙ sym (ap (λ c. if c then some o else live st b) t)
  ]

  -- Setting the balance of the object that the operation starts from.
  set_balance_of-Holds :
      (st : State) (a : ℕ) (amount : ℤ)
      → Holds st a amount (
          set_balance_of db
            (get_or_new_state_object db st a).1
            a
            (get_or_new_state_object db st a).0
            ((get_or_new_state_object db st a).0.data_of.balance +ℤ amount))
  unfolding set_balance_of put_balance
  set_balance_of-Holds st a amount =
      let (o, u) = get_or_new_state_object db st a in
      let g = get_or_new-Got db st a in
      let s = begun st a in
      let o' : StateObject = put_balance (o.data_of.balance +ℤ amount) o in
      record {
        object = o';
        lives =
            live-written st u (set_balance_of db u a o (o.data_of.balance +ℤ amount)) a o' g.alive
              (λ b. find-written db u a b o' (balance_change a o.data_of.balance)) s.others;
        balance = ap (λ x. x +ℤ amount) s.balance;
        nonce = s.nonce;
        same = λ i. put_balance (s.balance i +ℤ amount) (s.object i);
      }

  add_zero : (x amount : ℤ) → is_zero amount ≡ true → x ≡ x +ℤ amount
  unfolding is_zero ◌+ℤ◌
  add_zero x amount h = ground arith

  found_at :
      (u : State) (a b : ℕ) (o : StateObject)
      → find db u a ≡ some o
      → find db u b ≡ (if b == a then some o else find db u b)
  found_at u a b o here = elim (Bool-cases (b == a)) [
    | inl t ↦
        ap (find db u) ((==_iff b a).0 t)
        ∙ here
        ∙ sym (ap (λ c. if c then some o else find db u b) t)
    | inr t ↦ sym (ap (λ c. if c then some o else find db u b) t)
  ]

  -- Nothing is written, or only a touch.
  kept-Holds :
      (st v : State) (a : ℕ) (amount : ℤ)
      → is_zero amount ≡ true
      → ((b : ℕ) → find db v b ≡ find db (get_or_new_state_object db st a).1 b)
      → Holds st a amount v
  unfolding put_balance
  kept-Holds st v a amount zero same =
      let (o, u) = get_or_new_state_object db st a in
      let g = get_or_new-Got db st a in
      let s = begun st a in
      record {
        object = o;
        lives = live-written st u v a o g.alive (λ b. same b ∙ found_at u a b o g.here) s.others;
        balance = s.balance ∙ add_zero (balance_in (live st a)) amount zero;
        nonce = s.nonce;
        same = λ i.
            put_balance ((s.balance ∙ add_zero (balance_in (live st a)) amount zero) i)
              (s.object i);
      }

  find-touch : (u : State) (a b : ℕ) → find db (touch db u a) b ≡ find db u b
  unfolding find touch append
  find-touch u a b = elim (Bool-cases (a == 3)) [
    | inl t ↦ rw (t, touch) refl
    | inr t ↦ rw (t, touch) refl
  ]

  if-Holds :
      (st : State) (a : ℕ) (amount : ℤ) (c : Bool) (x y : State)
      → (c ≡ true → Holds st a amount x)
      → (c ≡ false → Holds st a amount y)
      → Holds st a amount (if c then x else y)
  if-Holds st a amount true x y p q = p refl
  if-Holds st a amount false x y p q = q refl

  add_balance-Holds :
      (st : State) (a : ℕ) (amount : ℤ) → Holds st a amount (add_balance db st a amount)
  unfolding add_balance
  add_balance-Holds st a amount =
      let (o, u) = get_or_new_state_object db st a in
      if-Holds st a amount (is_zero amount) _ _
        (λ zero.
          if-Holds st a amount (is_empty_object db o) _ _
            (λ e. kept-Holds st (touch db u a) a amount zero (λ b. find-touch u a b))
            (λ e. kept-Holds st u a amount zero (λ b. refl)))
        (λ n. set_balance_of-Holds st a amount)

  abbrev is_there : Option StateObject → Bool
  is_there none = false
  is_there (some o) = true

  balance-live : (st : State) (a : ℕ) → get_balance db st a ≡ balance_in (live st a)
  unfolding get_balance get_state_object get_deleted_state_object
  balance-live st a = refl

  nonce-live : (st : State) (a : ℕ) → get_nonce db st a ≡ nonce_in (live st a)
  unfolding get_nonce get_state_object get_deleted_state_object
  nonce-live st a = refl

  exist-live : (st : State) (a : ℕ) → exist db st a ≡ is_there (live st a)
  unfolding exist get_state_object get_deleted_state_object
  exist-live st a = refl

  -- After `AddBalance` the balance, the nonce and the existence that are read of every account are those
  -- of World, if they were before: the account's balance is more by the amount, whether its object was
  -- there, was deleted or is new, and the account exists. Its object, with its code, storage and flags, is
  -- the one before, or a fresh one if there was none or a deleted one, but for the balance; the objects
  -- that `getStateObject` finds for the other accounts are those before.
  pub add_balance-World :
      (st : State) (a : ℕ) (amount : ℤ) (w : World.State) (b : ℕ)
      → ((c : ℕ) → w.balance c ≡ get_balance db st c)
      → ((c : ℕ) → w.nonce c ≡ get_nonce db st c)
      → ((c : ℕ) → w.exist c ≡ exist db st c)
      → ((World.add_balance w a amount).balance b ≡ get_balance db (add_balance db st a amount) b)
        × ((World.add_balance w a amount).nonce b ≡ get_nonce db (add_balance db st a amount) b)
        × ((World.add_balance w a amount).exist b ≡ exist db (add_balance db st a amount) b)
        × ((get_state_object db (add_balance db st a amount) b).0 ≡ (
            if b == a
            then some
                (put_balance (get_balance db st a +ℤ amount) (started (get_state_object db st a).0))
            else (get_state_object db st b).0))
  unfolding World.add_balance get_state_object get_deleted_state_object get_balance
  add_balance-World st a amount w b hb hn he =
      let st' = add_balance db st a amount in
      let h = add_balance-Holds st a amount in
      elim (Bool-cases (b == a)) [
        | inl t ↦
            let b_is_a : b ≡ a = (==_iff b a).0 t in
            let there : live st' b ≡ some h.object =
              h.lives b ∙ ap (λ c. if c then some h.object else live st b) t in
            (
              ap (λ c. if c then w.balance a +ℤ amount else w.balance b) t
                  ∙ ap (λ x. x +ℤ amount) (hb a ∙ balance-live st a)
                  ∙ sym (balance-live st' b ∙ ap balance_in there ∙ h.balance),
              ap w.nonce b_is_a
                  ∙ hn a
                  ∙ nonce-live st a
                  ∙ sym (nonce-live st' b ∙ ap nonce_in there ∙ h.nonce),
              ap (λ c. if c then true else w.exist b) t
                  ∙ sym (exist-live st' b ∙ ap is_there there),
              rest h b,
            )
        | inr t ↦
            let there : live st' b ≡ live st b =
              h.lives b ∙ ap (λ c. if c then some h.object else live st b) t in
            (
              ap (λ c. if c then w.balance a +ℤ amount else w.balance b) t
                  ∙ hb b
                  ∙ balance-live st b
                  ∙ sym (balance-live st' b ∙ ap balance_in there),
              hn b ∙ nonce-live st b ∙ sym (nonce-live st' b ∙ ap nonce_in there),
              ap (λ c. if c then true else w.exist b) t
                  ∙ he b
                  ∙ exist-live st b
                  ∙ sym (exist-live st' b ∙ ap is_there there),
              rest h b,
            )
      ]
    where
      rest :
          (h : Holds st a amount (add_balance db st a amount)) (b : ℕ)
          → live (add_balance db st a amount) b ≡ (
              if b == a
              then some (put_balance (balance_in (live st a) +ℤ amount) (started (live st a)))
              else live st b)
      rest h b = h.lives b ∙ ap (λ o. if b == a then some o else live st b) h.same
