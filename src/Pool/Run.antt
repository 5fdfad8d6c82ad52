-- ===== src/Pool/Run.antt =====
-- core/txpool/legacypool/legacypool.go: a new pool and what is done to it, one call after the other under
-- the lock, and `Status`.
use pangu.Prelude.{
  ℕ, ◌≡◌, refl, Bool, Option, none, some, List, [], ◌∷◌, ◌>>=◌, if◌then◌else◌, Returns,
  Returns-bind, Option-cases, lookup, ◌⊎◌, inl, inr,
}
use pangu.Message.{Transaction}
use pangu.StateObject.{Database}
use pangu.StateDb.{State}
use pangu.Validation.{Received}
use pangu.Noncer.{new_noncer}
use pangu.Lookup as Lookup
use pangu.Lookup.{new_lookup}
use pangu.Lookup.Slots.{new-IsValid}
use pangu.Pool.{LegacyPool, Config, Prices, held, is_some, sender, remove_pool_tx}
use pangu.Pool.Places.{none_apart, apart_sym}
use pangu.Pool.Valid.{IsConsistent}
use pangu.Pool.Remove.{remove_pool_tx-IsConsistent}
use pangu.Pool.Add.{add_txs_locked}
use pangu.Pool.Add.Invariant.{add_txs_locked-IsConsistent}
use pangu.Pool.Reorg.{Head, promote_executables, demote_unexecutables}
use pangu.Pool.Reorg.Promote.{promote_executables-Returns}
use pangu.Pool.Reorg.Demote.{demote_unexecutables-Returns}

-- `New`, with the local accounts of the configuration and the nonces of the state.
unfoldable pub new_pool : List ℕ → (ℕ → ℕ) → LegacyPool
unfolding new_lookup new_noncer
new_pool locals nonce = record {
  pending = [];
  queue = [];
  all = new_lookup;
  pending_nonces = new_noncer nonce;
  locals = locals;
  beats = [];
  changes_since_reorg = 0;
}

-- `TxStatus`
pub data TxStatus : Type 0 where
  unknown : TxStatus
  queued : TxStatus
  pending : TxStatus
  included : TxStatus

-- `Status`
unfoldable pub status : (Transaction → Option ℕ) → LegacyPool → ℕ → TxStatus
unfolding Lookup.get held sender
status signer p hash = elim (Lookup.get p.all hash) [
  | none ↦ unknown
  | some r ↦
      if is_some (held p.pending (sender signer r.tx) r.tx.nonce)
      then pending
      else if is_some (held p.queue (sender signer r.tx) r.tx.nonce)
      then queued
      else unknown
]

-- A call of the pool: a batch of transactions with the state to validate them and the answers of the heap
-- of prices, a removal, a promotion and a demotion under a head of the chain.
pub data Call : Type 1 where
  add_call : Database → State → List (Received × Prices) → Bool → Call
  remove_call : ℕ → Call
  promote_call : Head → List ℕ → Call
  demote_call : Head → Call

module _ (signer : Transaction → Option ℕ) (config : Config) (account_queue now : ℕ) where
  unfoldable pub step : LegacyPool → Call → Option LegacyPool
  unfolding add_txs_locked remove_pool_tx promote_executables demote_unexecutables
  step p (add_call db st rs local) = some (add_txs_locked db st signer config now p rs local).0
  step p (remove_call hash) = some (remove_pool_tx signer config.price_bump now p hash).0
  step p (promote_call head accounts) =
      promote_executables signer config.price_bump account_queue now head p accounts >>= λ r.
      some r.0
  step p (demote_call head) = demote_unexecutables signer config.price_bump account_queue now head p

  unfoldable pub run : LegacyPool → List Call → Option LegacyPool
  unfolding step
  run p [] = some p
  run p (c ∷ cs) = step p c >>= λ q. run q cs

  pub new_pool-IsConsistent :
      (locals : List ℕ) (nonce : ℕ → ℕ) → IsConsistent signer (new_pool locals nonce) []
  unfolding new_pool new_lookup held lookup Lookup.get
  new_pool-IsConsistent locals nonce = record {
    places = record {
      listed = λ a n t h. absurd (none_apart refl h);
      listed_too = λ a n t h. absurd (none_apart refl h);
      apart = λ a n t h. refl;
      flying = tt;
      spread = tt;
      indexed = λ h r e. absurd (none_apart refl e);
    };
    pending_lists = λ a l h. absurd (none_apart refl h);
    queue_lists = λ a l h. absurd (none_apart refl h);
    counted = new-IsValid;
  }

  step-Returns :
      (p : LegacyPool) (c : Call)
      → IsConsistent signer p []
      → Returns (λ q. IsConsistent signer q []) (step p c)
  unfolding step
  step-Returns p (add_call db st rs local) c =
      add_txs_locked-IsConsistent db st signer config now p rs local c
  step-Returns p (remove_call hash) c =
      (remove_pool_tx-IsConsistent signer config.price_bump now p hash c).0
  step-Returns p (promote_call head accounts) c =
      Returns-bind _ _
        (promote_executables signer config.price_bump account_queue now head p accounts) _
        (promote_executables-Returns signer config.price_bump account_queue now head p accounts c)
        (λ r h. h)
  step-Returns p (demote_call head) c =
      demote_unexecutables-Returns signer config.price_bump account_queue now head p c

  run-Returns :
      (p : LegacyPool) (cs : List Call)
      → IsConsistent signer p []
      → Returns (λ q. IsConsistent signer q []) (run p cs)
  unfolding run
  run-Returns p [] c = c
  run-Returns p (x ∷ cs) c =
      Returns-bind _ _ (step p x) _ (step-Returns p x c) (λ q. run-Returns q cs)

  -- Whatever calls of `addTxsLocked`, `removeTx`, `promoteExecutables` and `demoteUnexecutables` are made
  -- on a new pool, in any order, under any heads of the chain and with any answers of the heap of prices,
  -- none panics, and the pool is consistent after them: each transaction of the lookup stands in one list,
  -- at its sender and nonce, pending or queued and not both, and the lists hold no other.
  pub run-IsConsistent :
      (locals : List ℕ) (nonce : ℕ → ℕ) (cs : List Call)
      → Returns (λ q. IsConsistent signer q []) (run (new_pool locals nonce) cs)
  run-IsConsistent locals nonce cs =
      run-Returns (new_pool locals nonce) cs (new_pool-IsConsistent locals nonce)

-- What a status says of a hash.
abbrev pub Means : (Transaction → Option ℕ) → LegacyPool → ℕ → TxStatus → Type 0
Means signer p hash unknown = Lookup.get p.all hash ≡ none
Means signer p hash queued =
    (r : Received) × (Lookup.get p.all hash ≡ some r)
    × (held p.queue (sender signer r.tx) r.tx.nonce ≡ some r.tx)
    × (held p.pending (sender signer r.tx) r.tx.nonce ≡ none)
Means signer p hash pending =
    (r : Received) × (Lookup.get p.all hash ≡ some r)
    × (held p.pending (sender signer r.tx) r.tx.nonce ≡ some r.tx)
Means signer p hash included = ⊥

-- In a consistent pool `Status` is right: it says unknown just for a hash that the lookup has not, and
-- otherwise the transaction itself stands in the list that it names.
pub status-Means :
    (signer : Transaction → Option ℕ) (p : LegacyPool) (hash : ℕ)
    → IsConsistent signer p []
    → Means signer p hash (status signer p hash)
unfolding status
status-Means signer p hash c = elim (Option-cases (Lookup.get p.all hash)) [
  | inl e ↦ rw (e, status) e
  | inr (r, e) ↦ let (_, there) = c.places.indexed hash r e in rw (e, status) (found r e there)
]
  where
    found :
        (r : Received) (e : Lookup.get p.all hash ≡ some r)
        → (held p.pending (sender signer r.tx) r.tx.nonce ≡ some r.tx)
          ⊎ (held p.queue (sender signer r.tx) r.tx.nonce ≡ some r.tx)
          ⊎ ⊥
        → Means signer p hash (
            if is_some (held p.pending (sender signer r.tx) r.tx.nonce)
            then pending
            else if is_some (held p.queue (sender signer r.tx) r.tx.nonce)
            then queued
            else unknown)
    found r e (inl h) = rw h (r, e, h)
    found r e (inr (inl h)) =
        let free = apart_sym (sender signer) _ _ c.places.apart _ _ r.tx h in
        rw (free, h) (r, e, h, free)
    found r e (inr (inr x)) = absurd x
