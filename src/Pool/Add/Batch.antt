-- ===== src/Pool/Add/Batch.antt =====
-- core/txpool/legacypool/legacypool.go, `addTxs`: the checks that need no lock, the batch under the lock,
-- and the errors of both in one slice. An index out of range is a panic, `none`. The request to promote
-- is left out; its accounts are those that `addTxsLocked` gives.
use pangu.Prelude.{
  ℕ, suc, ◌≡◌, refl, ap, Bool, Option, none, some, List, [], ◌∷◌, ◌>>=◌, arith, length, Returns,
  Returns-bind, Option-cases, ◌⊎◌, inl, inr,
}
use pangu.Message.{Transaction}
use pangu.StateObject.{Database}
use pangu.StateDb.{State}
use pangu.Validation.{Received, validate_tx_basics}
use pangu.Lookup as Lookup
use pangu.Pool.{LegacyPool, Config, Prices, AddError, already_known, invalid, Added, added, refused}
use pangu.Pool.Valid.{IsConsistent}
use pangu.Pool.Add.{add, add_txs_locked}
use pangu.Pool.Add.Invariant.{add_txs_locked-IsConsistent}

-- The error of a result.
unfoldable pub error_of : Added → Option AddError
error_of (added replaced) = none
error_of (refused e) = some e

-- The loop that fills the free slots of `errs` with the errors of the batch.
unfoldable pub merge_errs : List (Option AddError) → List Added → Option (List (Option AddError))
unfolding error_of
merge_errs errs [] = some errs
merge_errs [] (x ∷ xs) = none
merge_errs (some e ∷ errs) (x ∷ xs) = merge_errs errs (x ∷ xs) >>= λ rest. some (some e ∷ rest)
merge_errs (none ∷ errs) (x ∷ xs) = merge_errs errs xs >>= λ rest. some (error_of x ∷ rest)

module _ (db : Database) (st : State) (signer : Transaction → Option ℕ) (config : Config)
    (now head_gas_limit gas_tip : ℕ) where
  -- What sets the slot of a transaction before the lock is taken.
  unfoldable pub pre_error : LegacyPool → Received → Bool → Option AddError
  unfolding Lookup.get validate_tx_basics
  pre_error p r local = elim (Lookup.get p.all r.tx.hash) [
    | some known ↦ some already_known
    | none ↦ elim (validate_tx_basics signer r head_gas_limit gas_tip local) [
      | some e ↦ some (invalid e)
      | none ↦ none
    ]
  ]

  -- The first loop: the slots, and the transactions for the batch.
  unfoldable pub filter_known :
      LegacyPool
      → List (Received × Prices)
      → Bool
      → List (Option AddError) × List (Received × Prices)
  unfolding pre_error
  filter_known p [] local = ([], [])
  filter_known p (x ∷ xs) local =
      let (errs, news) = filter_known p xs local in
      elim (pre_error p x.0 local) [
        | some e ↦ (some e ∷ errs, news)
        | none ↦ (none ∷ errs, x ∷ news)
      ]

  -- `addTxs`
  unfoldable pub add_txs :
      LegacyPool → List (Received × Prices) → Bool → Option (LegacyPool × List (Option AddError))
  unfolding filter_known add_txs_locked merge_errs
  add_txs p rs local =
      let (errs, news) = filter_known p rs local in
      let (q, results, dirty) = add_txs_locked db st signer config now p news local in
      merge_errs errs results >>= λ merged. some (q, merged)

  -- Each transaction has one slot: its error from before the lock, or the next result of the batch.
  abbrev pub Answers :
      LegacyPool → Bool → List (Received × Prices) → List Added → List (Option AddError) → Type 0
  Answers p local [] results errs = (results ≡ []) × (errs ≡ [])
  Answers p local (x ∷ xs) results [] = ⊥
  Answers p local (x ∷ xs) results (err ∷ errs) =
      ((e : AddError) × (pre_error p x.0 local ≡ some e)
        × (err ≡ some e)
        × Answers p local xs results errs)
      ⊎ ((r : Added) × (rest : List Added) × (results ≡ r ∷ rest)
          × (pre_error p x.0 local ≡ none)
          × (err ≡ error_of r)
          × Answers p local xs rest errs)

  merge_errs-Answers :
      (p : LegacyPool) (local : Bool) (rs : List (Received × Prices)) (results : List Added)
      → length results ≡ length (filter_known p rs local).1
      → Returns (Answers p local rs results) (merge_errs (filter_known p rs local).0 results)
  unfolding filter_known merge_errs
  merge_errs-Answers p local [] [] h = (refl, refl)
  merge_errs-Answers p local [] (r ∷ rest) h = absurd (omega arith)
  merge_errs-Answers p local (x ∷ xs) results h =
      let ih = λ (us : List Added) (k : length us ≡ length (filter_known p xs local).1).
        merge_errs-Answers p local xs us k in
      elim (Option-cases (pre_error p x.0 local)) [
        | inl e ↦ rw (e, filter_known) (next x xs e ih results (rw (e, filter_known) at h))
        | inr (a, e) ↦ rw (e, filter_known) (early x xs a e ih results (rw (e, filter_known) at h))
      ]
    where
      early :
          (x : Received × Prices) (xs : List (Received × Prices)) (a : AddError)
          → pre_error p x.0 local ≡ some a
          → ((us : List Added)
              → length us ≡ length (filter_known p xs local).1
              → Returns (Answers p local xs us) (merge_errs (filter_known p xs local).0 us))
          → (results : List Added) → length results ≡ length (filter_known p xs local).1
          → Returns
              (Answers p local (x ∷ xs) results)
              (merge_errs (some a ∷ (filter_known p xs local).0) results)
      early x xs a e ih [] h = inl (a, e, refl, ih [] h)
      early x xs a e ih (r ∷ rest) h =
          Returns-bind _ _ (merge_errs (filter_known p xs local).0 (r ∷ rest)) _ (ih (r ∷ rest) h)
            (λ errs k. inl (a, e, refl, k))

      next :
          (x : Received × Prices) (xs : List (Received × Prices))
          → pre_error p x.0 local ≡ none
          → ((us : List Added)
              → length us ≡ length (filter_known p xs local).1
              → Returns (Answers p local xs us) (merge_errs (filter_known p xs local).0 us))
          → (results : List Added) → length results ≡ suc (length (filter_known p xs local).1)
          → Returns
              (Answers p local (x ∷ xs) results)
              (merge_errs (none ∷ (filter_known p xs local).0) results)
      next x xs e ih [] h = absurd (omega arith)
      next x xs e ih (r ∷ rest) h =
          Returns-bind _ _ (merge_errs (filter_known p xs local).0 rest) _ (ih rest (omega arith))
            (λ errs k. inr (r, rest, refl, e, refl, k))

  length-results :
      (p : LegacyPool) (rs : List (Received × Prices)) (local : Bool)
      → length (add_txs_locked db st signer config now p rs local).1 ≡ length rs
  unfolding add_txs_locked
  length-results p [] local = refl
  length-results p ((r, prices) ∷ rs) local =
      ap suc (length-results (add db st signer config now p r local prices).0 rs local)

  -- On a consistent pool `addTxs` returns without a panic, the pool is consistent after it, and each
  -- transaction has one slot of the result: the error of the checks before the lock where they found one,
  -- and otherwise what `add` said of it, in the order of the batch.
  pub add_txs-Answers :
      (p : LegacyPool) (rs : List (Received × Prices)) (local : Bool)
      → IsConsistent signer p []
      → Returns
          (λ r.
            IsConsistent signer r.0 []
            × Answers p local rs
                (add_txs_locked db st signer config now p (filter_known p rs local).1 local).1
                r.1)
          (add_txs p rs local)
  unfolding add_txs
  add_txs-Answers p rs local c =
      let news = (filter_known p rs local).1 in
      let results = (add_txs_locked db st signer config now p news local).1 in
      Returns-bind _ _ (merge_errs (filter_known p rs local).0 results) _
        (merge_errs-Answers p local rs results (length-results p news local))
        (λ errs k. (add_txs_locked-IsConsistent db st signer config now p news local c, k))
