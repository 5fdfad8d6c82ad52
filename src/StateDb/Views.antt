-- ===== src/StateDb/Views.antt =====
-- What the writes to an object do to the reads of its account, and that reads change none.
use pangu.Prelude.{
  ℕ, ◌≡◌, refl, sym, ap, ◌∙◌, Bool, true, Option, none, some, List, [], ◌==◌, if◌then◌else◌, arith,
  Bool-cases, inl, inr, ==_iff, subst,
}
use mathlib.Core.Path.{fun_ext}
use pangu.Prelude.Int.{ℤ, pos}
use pangu.World.{update}
use pangu.StateObject.{
  Database, StateObject, put_balance, put_nonce, put_code, put_state, get_state_of,
  get_committed_state, get_code_of,
}
use pangu.StateDb.Similar.{View, view_of, bytes}

abbrev code_at : Database → ℕ → Option (List ℕ) → List ℕ
code_at db h none = if h == db.empty_code_hash then [] else db.contract_code h
code_at db h (some c) = c

abbrev with_balance : ℤ → View → View
with_balance x v = record v { balance = x }

abbrev with_suicided : Bool → ℤ → View → View
with_suicided b x v = record v { suicided = b; balance = x }

abbrev with_nonce : ℕ → View → View
with_nonce n v = record v { nonce = n }

abbrev with_value : ℕ → ℕ → View → View
with_value key x v = record v { state = update v.state key x }

abbrev with_values : View → (ℕ → ℕ) → View
with_values v f = record v { state = f }

abbrev with_code : ℕ → List ℕ → View → View
with_code hash c v = record v { code_hash = hash; code = c }

module _ (db : Database) (a : ℕ) (d : Bool) where
  -- A view has the values that its parts have.
  pub view-same :
      (v w : View)
      → v.nonce ≡ w.nonce
      → v.balance ≡ w.balance
      → v.root ≡ w.root
      → v.code_hash ≡ w.code_hash
      → v.code ≡ w.code
      → ((key : ℕ) → v.state key ≡ w.state key)
      → ((key : ℕ) → v.committed key ≡ w.committed key)
      → v.suicided ≡ w.suicided
      → v.deleted ≡ w.deleted
      → v ≡ w
  view-same v w n b r h c s m u e i = record {
    nonce = n i;
    balance = b i;
    root = r i;
    code_hash = h i;
    code = c i;
    state = λ key. s key i;
    committed = λ key. m key i;
    suicided = u i;
    deleted = e i;
  }

  pub view-put_nonce :
      (n : ℕ) (x : StateObject)
      → view_of db a d (put_nonce n x) ≡ record (view_of db a d x) { nonce = n }
  unfolding view_of put_nonce get_state_of get_committed_state get_code_of
  view-put_nonce n x =
      view-same _ _ refl refl refl refl (ground arith) (λ key. ground arith) (λ key. ground arith)
        refl refl

  pub view-put_balance :
      (n : ℤ) (x : StateObject)
      → view_of db a d (put_balance n x) ≡ record (view_of db a d x) { balance = n }
  unfolding view_of put_balance get_state_of get_committed_state get_code_of
  view-put_balance n x =
      view-same _ _ refl refl refl refl (ground arith) (λ key. ground arith) (λ key. ground arith)
        refl refl

  pub view-put_state :
      (key v : ℕ) (x : StateObject)
      → view_of db a d (put_state key v x)
        ≡ record (view_of db a d x) { state = update (view_of db a d x).state key v }
  unfolding view_of put_state get_state_of get_committed_state get_code_of
  view-put_state key v x =
      view-same _ _ refl refl refl refl (ground arith) (λ k. ground arith) (λ k. ground arith) refl
        refl

  pub view-put_code :
      (h : ℕ) (c : Option (List ℕ)) (x : StateObject)
      → view_of db a d (put_code h c x)
        ≡ record (view_of db a d x) { code_hash = h; code = code_at db h c }
  unfolding view_of put_code get_state_of get_committed_state get_code_of
  view-put_code h none x =
      view-same _ _ refl refl refl refl (ground arith) (λ key. ground arith) (λ key. ground arith)
        refl refl
  view-put_code h (some c) x =
      view-same _ _ refl refl refl refl (ground arith) (λ key. ground arith) (λ key. ground arith)
        refl refl

  view-marked :
      (b : Bool) (n : ℤ) (x : StateObject)
      → view_of db a d (put_balance n (record x { suicided = b }))
        ≡ with_suicided b n (view_of db a d x)
  unfolding view_of put_balance get_state_of get_committed_state get_code_of
  view-marked b n x =
      view-same _ _ refl refl refl refl (ground arith) (λ key. ground arith) (λ key. ground arith)
        refl refl

  -- Reads fill the caches only.
  pub view-get_code : (x : StateObject) → view_of db a d (get_code_of db x).1 ≡ view_of db a d x
  unfolding view_of get_state_of get_committed_state get_code_of
  view-get_code x =
      view-same _ _ (ground arith) (ground arith) (ground arith) (ground arith) (ground arith)
        (λ key. ground arith) (λ key. ground arith) (ground arith) (ground arith)

  pub view-get_state :
      (key : ℕ) (x : StateObject) → view_of db a d (get_state_of db a d x key).1 ≡ view_of db a d x
  unfolding view_of get_state_of get_committed_state get_code_of
  view-get_state key x =
      view-same _ _ (ground arith) (ground arith) (ground arith) (ground arith) (ground arith)
        (λ k. ground arith) (λ k. ground arith) (ground arith) (ground arith)

  -- The code that `Code` gives, read back at its hash.
  pub code_at-get_code :
      (x : StateObject)
      → code_at db x.data_of.code_hash (get_code_of db x).0 ≡ bytes (get_code_of db x).0
  unfolding get_code_of
  code_at-get_code x = ground arith

update_back : (f : ℕ → ℕ) (k v : ℕ) → update (update f k v) k (f k) ≡ f
update_back f k v = fun_ext {f = update (update f k v) k (f k)} (λ b. elim (Bool-cases (b == k)) [
  | inl t ↦ let b_is_k : b ≡ k = (==_iff b k).0 t in let same = ap f b_is_k in ground arith
  | inr t ↦ ground arith
])

-- The reads before, once the old value is put back where another one was written.
module _ (db : Database) (a : ℕ) (d : Bool) where
  pub nonce_back :
      (o x : StateObject) (n : ℕ)
      → view_of db a d x ≡ view_of db a d (put_nonce n o)
      → view_of db a d (put_nonce o.data_of.nonce x) ≡ view_of db a d o
  unfolding view_of
  nonce_back o x n h =
      view-put_nonce db a d o.data_of.nonce x
      ∙ ap (λ v. with_nonce o.data_of.nonce v) (h ∙ view-put_nonce db a d n o)

  pub balance_back :
      (o x : StateObject) (n : ℤ)
      → view_of db a d x ≡ view_of db a d (put_balance n o)
      → view_of db a d (put_balance o.data_of.balance x) ≡ view_of db a d o
  unfolding view_of
  balance_back o x n h =
      view-put_balance db a d o.data_of.balance x
      ∙ ap (λ v. with_balance o.data_of.balance v) (h ∙ view-put_balance db a d n o)

  pub state_back :
      (o x : StateObject) (key v : ℕ)
      → view_of db a d x ≡ view_of db a d (put_state key v (get_state_of db a d o key).1)
      → view_of db a d (put_state key (get_state_of db a d o key).0 x) ≡ view_of db a d o
  unfolding view_of
  state_back o x key v h =
      let w = view_of db a d o in
      let was = (get_state_of db a d o key).0 in
      let o' = (get_state_of db a d o key).1 in
      view-put_state db a d key was x
      ∙ ap (with_value key was)
          (h ∙ view-put_state db a d key v o' ∙ ap (with_value key v) (view-get_state db a d key o))
      ∙ ap (with_values w) (update_back w.state key v)

  pub code_back :
      (o x : StateObject) (hash : ℕ) (code : Option (List ℕ))
      → view_of db a d x ≡ view_of db a d (put_code hash code (get_code_of db o).1)
      → view_of db a d (put_code (get_code_of db o).1.data_of.code_hash (get_code_of db o).0 x)
        ≡ view_of db a d o
  unfolding view_of
  code_back o x hash code h =
      let prev = (get_code_of db o).0 in
      let o' = (get_code_of db o).1 in
      let at = o'.data_of.code_hash in
      let same : at ≡ o.data_of.code_hash = ap (λ v. v.code_hash) (view-get_code db a d o) in
      view-put_code db a d at prev x
      ∙ ap (with_code at (code_at db at prev)) (
          h
          ∙ view-put_code db a d hash code o'
          ∙ ap (with_code hash (code_at db hash code)) (view-get_code db a d o))
      ∙ subst (λ k. with_code k (code_at db k prev) (view_of db a d o) ≡ view_of db a d o)
          (sym same)
          (ap (λ c. with_code o.data_of.code_hash c (view_of db a d o)) (code_at-get_code db a d o))

  pub suicide_back :
      (o x : StateObject)
      → view_of db a d x ≡ view_of db a d (put_balance (pos 0) (record o { suicided = true }))
      → view_of db a d (put_balance o.data_of.balance (record x { suicided = o.suicided }))
        ≡ view_of db a d o
  unfolding view_of
  suicide_back o x h =
      view-marked db a d o.suicided o.data_of.balance x
      ∙ ap (with_suicided o.suicided o.data_of.balance) (h ∙ view-marked db a d true (pos 0) o)
