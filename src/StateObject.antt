-- ===== src/StateObject.antt =====
-- core/state/state_object.go: one account in memory, with its caches. A `Storage` is a function that is
-- `none` on a key that is not there. The database below it is a parameter, and reads from it do not
-- fail; there is no snapshot tree (`snap` is nil) and no prefetcher.
use pangu.Prelude.{ℕ, Bool, true, false, ◌&&◌, Option, none, some, List, ◌==◌, if◌then◌else◌}
use pangu.Prelude.Int.{ℤ, pos, negsuc}
use pangu.World.{update}

-- `types.StateAccount`
pub record StateAccount : Type 0 where
  pub nonce : ℕ
  pub balance : ℤ
  pub root : ℕ
  pub code_hash : ℕ

-- What the tries and the code store below hold: accounts by address, slots by address, root and key,
-- code by its hash. An account there has its root and its code hash, so that `newObject` keeps them.
pub record Database : Type 0 where
  pub account : ℕ → Option StateAccount
  pub storage : ℕ → ℕ → ℕ → ℕ
  pub contract_code : ℕ → List ℕ
  pub empty_root : ℕ
  pub empty_code_hash : ℕ
  pub keccak256 : List ℕ → ℕ

pub record StateObject : Type 0 where
  pub data_of : StateAccount
  pub code : Option (List ℕ)
  pub origin_storage : ℕ → Option ℕ
  pub pending_storage : ℕ → Option ℕ
  pub dirty_storage : ℕ → Option ℕ
  pub dirty_code : Bool
  pub suicided : Bool
  pub deleted : Bool

unfoldable pub is_zero : ℤ → Bool
is_zero (pos n) = n == 0
is_zero (negsuc n) = false

unfoldable pub new_object : StateAccount → StateObject
new_object account = record {
  data_of = account;
  code = none;
  origin_storage = λ key. none;
  pending_storage = λ key. none;
  dirty_storage = λ key. none;
  dirty_code = false;
  suicided = false;
  deleted = false;
}

unfoldable pub put_balance : ℤ → StateObject → StateObject
put_balance amount o = record o { data_of = record o.data_of { balance = amount } }

unfoldable pub put_nonce : ℕ → StateObject → StateObject
put_nonce nonce o = record o { data_of = record o.data_of { nonce = nonce } }

unfoldable pub put_code : ℕ → Option (List ℕ) → StateObject → StateObject
put_code hash code o = record o {
  code = code;
  data_of = record o.data_of { code_hash = hash };
  dirty_code = true;
}

unfoldable pub put_state : ℕ → ℕ → StateObject → StateObject
put_state key value o = record o { dirty_storage = update o.dirty_storage key (some value) }

-- `finalise`
unfoldable pub finalise_object : StateObject → StateObject
finalise_object o = record o {
  pending_storage =
      λ key. (elim (o.dirty_storage key) [ none ↦ o.pending_storage key | some v ↦ some v ]);
  dirty_storage = λ key. none;
}

module _ (db : Database) where
  -- What `newObject` makes of an empty `StateAccount`.
  abbrev pub fresh : StateObject
  fresh =
      new_object (record {
        nonce = 0;
        balance = pos 0;
        root = db.empty_root;
        code_hash = db.empty_code_hash;
      })

  -- `empty`
  unfoldable pub is_empty_object : StateObject → Bool
  unfolding is_zero
  is_empty_object o =
      o.data_of.nonce == 0 && is_zero o.data_of.balance && o.data_of.code_hash == db.empty_code_hash

  -- `GetCommittedState` of the object at an address, which may be marked as destructed in the block.
  unfoldable pub get_committed_state : ℕ → Bool → StateObject → ℕ → ℕ × StateObject
  get_committed_state a destructed o key = elim (o.pending_storage key) [
    | some v ↦ (v, o)
    | none ↦ elim (o.origin_storage key) [
      | some v ↦ (v, o)
      | none ↦
          let v = db.storage a o.data_of.root key in
          if destructed
          then (0, o)
          else (v, record o { origin_storage = update o.origin_storage key (some v) })
    ]
  ]

  -- `GetState`
  unfoldable pub get_state_of : ℕ → Bool → StateObject → ℕ → ℕ × StateObject
  unfolding get_committed_state
  get_state_of a destructed o key = elim (o.dirty_storage key) [
    | some v ↦ (v, o)
    | none ↦ get_committed_state a destructed o key
  ]

  -- `Code`; `none` is nil.
  unfoldable pub get_code_of : StateObject → Option (List ℕ) × StateObject
  get_code_of o = elim o.code [
    | some c ↦ (some c, o)
    | none ↦
        let c = db.contract_code o.data_of.code_hash in
        if o.data_of.code_hash == db.empty_code_hash
        then (none, o)
        else (some c, record o { code = some c })
  ]
