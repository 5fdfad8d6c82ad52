-- ===== src/World.antt =====
-- core/state/statedb.go, as core/transition.go and core/evm/evm.go use it: the accounts, by address.
-- A snapshot is the state itself and reverting to it brings it back, which is what the journal of the
-- state promises. Balances are `*big.Int`, so they are integers: `SubBalance` does not check.
use pangu.Prelude.{ℕ, Bool, true, List, [], ◌==◌, if◌then◌else◌, ◌≡◌, ◌≢◌, arith}
use pangu.Prelude.Int.{ℤ, ◌+ℤ◌, ◌-ℤ◌}

abbrev pub update {ℓ} : {A : Type ℓ} → (ℕ → A) → ℕ → A → ℕ → A
update f a v b = if b == a then v else f b

pub record State : Type 0 where
  pub balance : ℕ → ℤ
  pub nonce : ℕ → ℕ
  pub code_hash : ℕ → ℕ
  pub code : ℕ → List ℕ
  pub storage : ℕ → ℕ → ℕ
  pub exist : ℕ → Bool
  pub refund : ℕ

-- `AddBalance`, `SubBalance` and `SetNonce` go through `GetOrNewStateObject`.
unfoldable pub add_balance : State → ℕ → ℤ → State
add_balance st a amount = record st {
  balance = update st.balance a (st.balance a +ℤ amount);
  exist = update st.exist a true;
}

unfoldable pub sub_balance : State → ℕ → ℤ → State
sub_balance st a amount = record st {
  balance = update st.balance a (st.balance a -ℤ amount);
  exist = update st.exist a true;
}

unfoldable pub set_nonce : State → ℕ → ℕ → State
set_nonce st a n = record st { nonce = update st.nonce a n; exist = update st.exist a true }

unfoldable pub set_code : State → ℕ → ℕ → List ℕ → State
set_code st a hash code = record st {
  code_hash = update st.code_hash a hash;
  code = update st.code a code;
  exist = update st.exist a true;
}

-- `CreateAccount`: a fresh account that keeps the balance of the one before.
unfoldable pub create_account : ℕ → State → ℕ → State
create_account empty_code_hash st a = record st {
  nonce = update st.nonce a 0;
  code_hash = update st.code_hash a empty_code_hash;
  code = update st.code a [];
  storage = update st.storage a (λ _. 0);
  exist = update st.exist a true;
}

-- What the operations do to the balances.
module _ (st : State) (a : ℕ) (x : ℤ) where
  pub add_balance_self : (add_balance st a x).balance a ≡ st.balance a +ℤ x
  unfolding add_balance
  add_balance_self = ground arith

  pub add_balance_ne : (b : ℕ) → b ≢ a → (add_balance st a x).balance b ≡ st.balance b
  unfolding add_balance
  add_balance_ne b n = ground arith

  pub sub_balance_self : (sub_balance st a x).balance a ≡ st.balance a -ℤ x
  unfolding sub_balance
  sub_balance_self = ground arith

  pub sub_balance_ne : (b : ℕ) → b ≢ a → (sub_balance st a x).balance b ≡ st.balance b
  unfolding sub_balance
  sub_balance_ne b n = ground arith
