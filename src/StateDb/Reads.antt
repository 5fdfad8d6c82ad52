-- ===== src/StateDb/Reads.antt =====
-- core/state/statedb.go, the reads of the state: what each gives. The loading of an object, which they share with `GetState`, is left out here.
use pangu.Prelude.{ℕ, Bool, true, false, none, some}
use pangu.Prelude.Int.{ℤ, pos}
use pangu.StateObject.{Database, is_empty_object, get_committed_state}
use pangu.StateDb.{State, get_state_object}

module _ (db : Database) where
  -- `Exist`
  unfoldable pub exist : State → ℕ → Bool
  unfolding get_state_object
  exist st a = elim (get_state_object db st a).0 [ none ↦ false | some x ↦ true ]

  -- `Empty`
  unfoldable pub is_empty_account : State → ℕ → Bool
  unfolding get_state_object is_empty_object
  is_empty_account st a = elim (get_state_object db st a).0 [
    | none ↦ true
    | some x ↦ is_empty_object db x
  ]

  unfoldable pub get_balance : State → ℕ → ℤ
  unfolding get_state_object
  get_balance st a = elim (get_state_object db st a).0 [ none ↦ pos 0 | some x ↦ x.data_of.balance ]

  unfoldable pub get_nonce : State → ℕ → ℕ
  unfolding get_state_object
  get_nonce st a = elim (get_state_object db st a).0 [ none ↦ 0 | some x ↦ x.data_of.nonce ]

  unfoldable pub get_code_hash : State → ℕ → ℕ
  unfolding get_state_object
  get_code_hash st a = elim (get_state_object db st a).0 [ none ↦ 0 | some x ↦ x.data_of.code_hash ]

  -- `GetCommittedState`
  unfoldable pub get_committed_state_at : State → ℕ → ℕ → ℕ
  unfolding get_state_object get_committed_state
  get_committed_state_at st a key = elim (get_state_object db st a).0 [
    | none ↦ 0
    | some x ↦ (get_committed_state db a (st.objects_destruct a) x key).0
  ]

  unfoldable pub has_self_destructed : State → ℕ → Bool
  unfolding get_state_object
  has_self_destructed st a = elim (get_state_object db st a).0 [
    | none ↦ false
    | some x ↦ x.suicided
  ]
