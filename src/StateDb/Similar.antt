-- ===== src/StateDb/Similar.antt =====
-- What can be read of a state, whatever stands in its caches: the reads of each account, and the values
-- beside the accounts. The journal and the revisions are left out.
use pangu.Prelude.{
  ℕ, ◌≡◌, refl, sym, ap, ◌∙◌, Bool, false, Option, none, some, List, [], ◌==◌, if◌then◌else◌, arith,
}
use pangu.Prelude.Int.{ℤ}
use pangu.StateObject.{Database, StateObject, get_state_of, get_committed_state, get_code_of}
use pangu.StateDb.{State, find, get_deleted_state_object, set_state_object}

-- The reads of one account; nil code is no code.
pub record View : Type 0 where
  pub nonce : ℕ
  pub balance : ℤ
  pub root : ℕ
  pub code_hash : ℕ
  pub code : List ℕ
  pub state : ℕ → ℕ
  pub committed : ℕ → ℕ
  pub suicided : Bool
  pub deleted : Bool

abbrev pub bytes : Option (List ℕ) → List ℕ
bytes none = []
bytes (some c) = c

module _ (db : Database) where
  unfoldable pub view_of : ℕ → Bool → StateObject → View
  unfolding get_state_of get_committed_state get_code_of
  view_of a destructed o = record {
    nonce = o.data_of.nonce;
    balance = o.data_of.balance;
    root = o.data_of.root;
    code_hash = o.data_of.code_hash;
    code = bytes (get_code_of db o).0;
    state = λ key. (get_state_of db a destructed o key).0;
    committed = λ key. (get_committed_state db a destructed o key).0;
    suicided = o.suicided;
    deleted = o.deleted;
  }

  abbrev pub see : ℕ → Bool → Option StateObject → Option View
  see a destructed none = none
  see a destructed (some o) = some (view_of a destructed o)

  -- The account at an address, if there is one or was one in this block.
  unfoldable pub peek : State → ℕ → Option View
  unfolding find view_of
  peek st a = see a (st.objects_destruct a) (find db st a)

  -- Two states that no read tells apart. The count of the changes to the account 3 is left out: a touch
  -- of it is remembered through a revert.
  pub record Similar (s t : State) : Type 0 where
    pub same : (a : ℕ) → peek s a ≡ peek t a
    pub destruct : (a : ℕ) → s.objects_destruct a ≡ t.objects_destruct a
    pub refund : s.refund ≡ t.refund
    pub thash : s.thash ≡ t.thash
    pub logs : (h : ℕ) → s.logs h ≡ t.logs h
    pub log_size : s.log_size ≡ t.log_size
    pub preimages : (h : ℕ) → s.preimages h ≡ t.preimages h
    pub access_list : s.access_list ≡ t.access_list
    pub transient : (a key : ℕ) → s.transient a key ≡ t.transient a key
    pub dirties : (a : ℕ) → (a == 3) ≡ false → s.dirties a ≡ t.dirties a

  pub Similar-refl : (s : State) → Similar s s
  Similar-refl s = record {
    same = λ a. refl;
    destruct = λ a. refl;
    refund = refl;
    thash = refl;
    logs = λ h. refl;
    log_size = refl;
    preimages = λ h. refl;
    access_list = refl;
    transient = λ a key. refl;
    dirties = λ a n. refl;
  }

  pub Similar-trans : {s t u : State} → Similar s t → Similar t u → Similar s u
  Similar-trans p q = record {
    same = λ a. p.same a ∙ q.same a;
    destruct = λ a. p.destruct a ∙ q.destruct a;
    refund = p.refund ∙ q.refund;
    thash = p.thash ∙ q.thash;
    logs = λ h. p.logs h ∙ q.logs h;
    log_size = p.log_size ∙ q.log_size;
    preimages = λ h. p.preimages h ∙ q.preimages h;
    access_list = p.access_list ∙ q.access_list;
    transient = λ a key. p.transient a key ∙ q.transient a key;
    dirties = λ a n. p.dirties a n ∙ q.dirties a n;
  }

  -- Another state's object at an address, seen the same.
  pub peek-some :
      (s t : State) (a : ℕ) (o : StateObject)
      → peek s a ≡ peek t a
      → find db t a ≡ some o
      → (x : StateObject) × (find db s a ≡ some x)
        × (view_of a (s.objects_destruct a) x ≡ view_of a (t.objects_destruct a) o)
  unfolding peek
  peek-some s t a o h e = go (find db s a) refl
    where
      seen : see a (s.objects_destruct a) (find db s a) ≡ some (view_of a (t.objects_destruct a) o)
      seen = h ∙ ap (see a (t.objects_destruct a)) e

      go :
          (f : Option StateObject)
          → (find db s a ≡ f)
          → (x : StateObject) × (find db s a ≡ some x)
            × (view_of a (s.objects_destruct a) x ≡ view_of a (t.objects_destruct a) o)
      go none f = cc (sym (ap (see a (s.objects_destruct a)) f) ∙ seen)
      go (some x) f = (x, f, cc (sym (ap (see a (s.objects_destruct a)) f) ∙ seen))

  pub peek-none :
      (s t : State) (a : ℕ) → peek s a ≡ peek t a → find db t a ≡ none → find db s a ≡ none
  unfolding peek
  peek-none s t a h e = go (find db s a) refl
    where
      seen : see a (s.objects_destruct a) (find db s a) ≡ none
      seen = h ∙ ap (see a (t.objects_destruct a)) e

      go : (f : Option StateObject) → (find db s a ≡ f) → find db s a ≡ none
      go none f = f
      go (some x) f = cc (sym (ap (see a (s.objects_destruct a)) f) ∙ seen)

  -- Loading an account leaves all of them, and a write changes the one.
  pub find-load :
      (s : State) (a b : ℕ) → find db (get_deleted_state_object db s a).1 b ≡ find db s b
  unfolding find get_deleted_state_object
  find-load s a b = ground arith

  pub find-set :
      (s : State) (a b : ℕ) (o : StateObject)
      → find db (set_state_object s a o) b ≡ (if b == a then some o else find db s b)
  unfolding find set_state_object
  find-set s a b o = ground arith
