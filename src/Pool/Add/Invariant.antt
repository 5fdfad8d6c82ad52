-- ===== src/Pool/Add/Invariant.antt =====
-- `add` keeps the pool consistent, whatever the heap of prices answers.
use pangu.Prelude.{
  ℕ, ◌≡◌, refl, sym, ap, ◌∙◌, inl, inr, Bool, true, false, not, ◌&&◌, ◌||◌, Option, none, some,
  List, [], ◌∷◌, if◌then◌else◌, arith, contains, Bool-cases, Option-cases, lookup, ltb, ◌+◌, ◌/◌,
}
use pangu.Prelude.Int.{pos, ◌+ℤ◌, ◌-ℤ◌}
use pangu.Message.{Transaction}
use pangu.StateObject.{Database}
use pangu.StateDb.{State}
use pangu.Validation.{PoolError, Received, validate_tx}
use pangu.Lookup as Lookup
use pangu.Lookup.{contains_tx, remote_to_locals, num_slots}
use pangu.Lookup.Moves.{remote_to_locals-IsValid}
use pangu.Lookup.Same.{get-remote_to_locals}
use pangu.TxList.{add_tx}
use pangu.Pool.{
  LegacyPool, Config, Prices, AddError, Added, added, refused, replace_underpriced, held,
  list_or_new, sender, enqueue_tx, kick_out, forget, is_gapped, replaces_pending, invalid,
  underpriced_tx, tx_pool_overflow, future_replace_pending,
}
use pangu.Pool.Listed.{add_tx-taken}
use pangu.Pool.Valid.{IsConsistent, held-list_or_new}
use pangu.Pool.Flight.{put_view, put_lists}
use pangu.Pool.Enter.{replaced, forget-add}
use pangu.Pool.Remove.{kick_out-IsConsistent}
use pangu.Pool.Add.Enqueue.{Queued, enqueue_tx-Queued}
use pangu.Pool.Add.{
  replace_pending, mark_local, add_queued, insert_tx, make_room, add_valid, add, add_txs_locked,
}

-- The pool is consistent, and knows the transaction just if the result says that it was added.
abbrev pub Outcome : (Transaction → Option ℕ) → Received → LegacyPool × Added → Type 0
Outcome signer r (p, added replaced) =
    IsConsistent signer p [] × (Lookup.get p.all r.tx.hash ≡ some r)
Outcome signer r (p, refused e) = IsConsistent signer p [] × (Lookup.get p.all r.tx.hash ≡ none)

either {ℓ} : {A : Type ℓ} (P : A → Type 0) (b : Bool) (x y : A) → P x → P y → P (if b then x else y)
either P true x y h k = h
either P false x y h k = k

module _ (db : Database) (st : State) (signer : Transaction → Option ℕ) (config : Config)
    (now : ℕ) where
  replace_pending-Outcome :
      (p : LegacyPool) (r : Received) (local : Bool) (old : Transaction)
      → IsConsistent signer p []
      → Lookup.get p.all r.tx.hash ≡ none
      → held p.pending (sender signer r.tx) r.tx.nonce ≡ some old
      → Outcome signer r (replace_pending db st signer config now p r local)
  unfolding replace_pending forget
  replace_pending-Outcome p r local old c new there =
      let from = sender signer r.tx in
      let l = list_or_new p.pending from true in
      elim (add_tx-taken l r.tx old config.price_bump
        (sym (held-list_or_new p.pending from true r.tx.nonce) ∙ there)) [
          | inl (same, refusal) ↦ rw (refusal, replace_pending) (c, new)
          | inr (items, inserted, was) ↦
              let (view, counted) = forget-add p.all old r local c.counted new in
              let at =
                put_view p.pending from true (add_tx l r.tx config.price_bump).0 r.tx.nonce r.tx
                  items in
              rw (inserted, was, replace_pending)
                (
                  record {
                    places =
                        rw (at, view)
                          (replaced (sender signer) (held p.pending) (held p.queue)
                            (Lookup.get p.all) r old there new c.places);
                    pending_lists =
                        put_lists p.pending from true r.tx config.price_bump c.pending_lists;
                    queue_lists = c.queue_lists;
                    counted = counted;
                  },
                  rw view (ground arith),
                )
        ]

  mark_local-IsConsistent :
      (p : LegacyPool) (from : ℕ) (local : Bool)
      → IsConsistent signer p []
      → IsConsistent signer (mark_local db st signer config now p from local) []
        × (Lookup.get (mark_local db st signer config now p from local).all ≡ Lookup.get p.all)
  unfolding mark_local
  mark_local-IsConsistent p from local c =
      let view = get-remote_to_locals signer (from ∷ p.locals) p.all c.counted in
      elim (Bool-cases (local && not (contains p.locals from))) [
        | inr f ↦ rw (f, mark_local) (c, refl)
        | inl f ↦
            rw (f, mark_local)
              (
                record {
                  places = rw view c.places;
                  pending_lists = c.pending_lists;
                  queue_lists = c.queue_lists;
                  counted = remote_to_locals-IsValid signer (from ∷ p.locals) p.all c.counted;
                },
                view,
              )
      ]

  add_queued-Outcome :
      (p : LegacyPool) (r : Received) (local is_local : Bool)
      → IsConsistent signer p []
      → Lookup.get p.all r.tx.hash ≡ none
      → held p.pending (sender signer r.tx) r.tx.nonce ≡ none
      → Outcome signer r (add_queued db st signer config now p r local is_local)
  unfolding add_queued
  add_queued-Outcome p r local is_local c new free =
      finish (enqueue_tx signer config.price_bump now p r.tx (some (r, is_local)))
        (enqueue_tx-Queued signer config.price_bump now p r is_local c new free)
    where
      finish :
          (x : LegacyPool × Option Bool)
          → Queued signer config.price_bump now r x
          → Outcome signer r (elim x.1 [
            | none ↦ (x.0, refused replace_underpriced)
            | some replaced ↦
                (mark_local db st signer config now x.0 (sender signer r.tx) local, added replaced)
          ])
      finish (q, none) h = h
      finish (q, some replaced) (d, known) =
          let (e, view) = mark_local-IsConsistent q (sender signer r.tx) local d in
          (e, ap (λ k. k r.tx.hash) view ∙ known)

  insert_tx-Outcome :
      (p : LegacyPool) (r : Received) (local is_local : Bool)
      → IsConsistent signer p []
      → Lookup.get p.all r.tx.hash ≡ none
      → Outcome signer r (insert_tx db st signer config now p r local is_local)
  unfolding insert_tx
  insert_tx-Outcome p r local is_local c new =
      elim (Option-cases (held p.pending (sender signer r.tx) r.tx.nonce)) [
        | inl e ↦ rw (e, insert_tx) (add_queued-Outcome p r local is_local c new e)
        | inr (old, e) ↦ rw (e, insert_tx) (replace_pending-Outcome p r is_local old c new e)
      ]

  -- Making room changes nothing but the nonces that it fetches.
  record Fits (hash : ℕ) (x : LegacyPool × Option AddError × List Transaction) : Type 0 where
    consistent : IsConsistent signer x.0 []
    unknown : Lookup.get x.0.all hash ≡ none

  make_room-Fits :
      (p : LegacyPool) (r : Received) (is_local : Bool) (prices : Prices) (hash : ℕ)
      → IsConsistent signer p []
      → Lookup.get p.all hash ≡ none
      → Fits hash (make_room db st signer config now p r is_local prices)
  unfolding make_room
  make_room-Fits p r is_local prices hash c new =
      let (gapped, nonces) = is_gapped signer p (sender signer r.tx) r.tx in
      let fetched : LegacyPool = record p { pending_nonces = nonces } in
      let same : IsConsistent signer fetched [] = record {
        places = c.places;
        pending_lists = c.pending_lists;
        queue_lists = c.queue_lists;
        counted = c.counted;
      } in
      let fit = λ (e : Option AddError) (drop : List Transaction).
        either (λ q. Fits hash (q, e, drop)) is_local p fetched
          (record { consistent = c; unknown = new })
          (record { consistent = same; unknown = new }) in
      let early = λ (e : Option AddError). the_early p e c new in
      let room =
        prices.discard
          (p.all.slots -ℤ pos (config.global_slots + config.global_queue) +ℤ pos (num_slots r))
          is_local in
      either (Fits hash) (not is_local && prices.underpriced r.tx) _ _ (early (some underpriced_tx))
        (either (Fits hash) (ltb (config.global_slots / 4) p.changes_since_reorg) _ _
          (early (some tx_pool_overflow))
          (either (Fits hash) (not is_local && not room.1) _ _ (early (some tx_pool_overflow)) (
            either (Fits hash) (not is_local && gapped && replaces_pending signer p.pending room.0)
              _ _ (fit (some future_replace_pending) []) (fit none room.0))))
    where
      the_early :
          (q : LegacyPool) (e : Option AddError)
          → IsConsistent signer q []
          → Lookup.get q.all hash ≡ none
          → Fits hash (q, e, [])
      the_early q e d still = record { consistent = d; unknown = still }

  add_valid-Outcome :
      (p : LegacyPool) (r : Received) (local is_local : Bool) (prices : Prices)
      → IsConsistent signer p []
      → Lookup.get p.all r.tx.hash ≡ none
      → Outcome signer r (add_valid db st signer config now p r local is_local prices)
  unfolding add_valid
  add_valid-Outcome p r local is_local prices c new =
      either (Outcome signer r) _ _ _
        (full (make_room db st signer config now p r is_local prices)
          (make_room-Fits p r is_local prices r.tx.hash c new))
        (insert_tx-Outcome p r local is_local c new)
    where
      full :
          (x : LegacyPool × Option AddError × List Transaction)
          → Fits r.tx.hash x
          → Outcome signer r (elim x.1 [
            | some e ↦ (x.0, refused e)
            | none ↦
                insert_tx db st signer config now
                  (kick_out signer config.price_bump now x.0 x.2)
                  r
                  local
                  is_local
          ])
      full (q, some e, drop) h = (h.consistent, h.unknown)
      full (q, none, drop) h =
          let (e, gone) =
            kick_out-IsConsistent signer config.price_bump now q drop r.tx.hash h.consistent
              h.unknown in
          insert_tx-Outcome (kick_out signer config.price_bump now q drop) r local is_local e gone

  -- `add` of a transaction that a consistent pool does not know, whatever the heap of prices answers:
  -- the pool is consistent after it, and knows the transaction just if the result is not an error.
  pub add-Outcome :
      (p : LegacyPool) (r : Received) (local : Bool) (prices : Prices)
      → IsConsistent signer p []
      → Lookup.get p.all r.tx.hash ≡ none
      → Outcome signer r (add db st signer config now p r local prices)
  unfolding add
  add-Outcome p r local prices c new =
      rw (new, add) (checked (validate_tx db signer r.tx st (λ a. lookup a p.pending)))
    where
      checked :
          (x : Option PoolError)
          → Outcome signer r (elim x [
            | some e ↦ (p, refused (invalid e))
            | none ↦
                add_valid db st signer config now p r local
                  (local || contains_tx signer p.locals r.tx)
                  prices
          ])
      checked (some e) = (c, new)
      checked none = add_valid-Outcome p r local _ prices c new

  add-IsConsistent :
      (p : LegacyPool) (r : Received) (local : Bool) (prices : Prices)
      → IsConsistent signer p []
      → IsConsistent signer (add db st signer config now p r local prices).0 []
  unfolding add
  add-IsConsistent p r local prices c = elim (Option-cases (Lookup.get p.all r.tx.hash)) [
    | inr (s, e) ↦ rw (e, add) c
    | inl e ↦ outcome_pool _ (add-Outcome p r local prices c e)
  ]
    where
      outcome_pool : (x : LegacyPool × Added) → Outcome signer r x → IsConsistent signer x.0 []
      outcome_pool (q, added replaced) h = h.0
      outcome_pool (q, refused e) h = h.0

  -- `addTxsLocked` keeps a consistent pool consistent, whatever the transactions are and the heap of prices
  -- answers: no transaction is lost from the lists or left in them, and no place is pending and queued.
  pub add_txs_locked-IsConsistent :
      (p : LegacyPool) (rs : List (Received × Prices)) (local : Bool)
      → IsConsistent signer p []
      → IsConsistent signer (add_txs_locked db st signer config now p rs local).0 []
  unfolding add_txs_locked
  add_txs_locked-IsConsistent p [] local c = c
  add_txs_locked-IsConsistent p ((r, prices) ∷ rs) local c =
      add_txs_locked-IsConsistent (add db st signer config now p r local prices).0 rs local
        (add-IsConsistent p r local prices c)
