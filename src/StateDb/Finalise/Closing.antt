-- ===== src/StateDb/Finalise/Closing.antt =====
-- The end of a transaction, for an account that has destructed itself.
use pangu.Prelude.{
  ℕ, ◌≡◌, sym, ap, ◌∙◌, Bool, true, false, ◌||◌, Option, none, some, arith, Option-cases, inl, inr,
}
use pangu.Prelude.Int.{pos}
use pangu.StateObject.{Database, StateAccount, new_object, StateObject, put_balance}
use pangu.StateDb.{
  suicide_change, State, append, find, get_state_object, get_deleted_state_object, set_state_object,
  self_destruct,
}
use pangu.StateDb.Accounts.{living}
use pangu.StateDb.Reads.{exist}
use pangu.StateDb.Finalise.{clear_journal_and_refund, is_gone, finalised, changed, finalise}

abbrev at_account : Option StateAccount → Option StateObject → Option StateObject
at_account account (some o) = some o
at_account account none = elim account [ none ↦ none | some x ↦ some (new_object x) ]

module _ (db : Database) where
  abbrev pick : Option StateObject → Bool → Option StateObject → Option StateObject
  pick there delete_empty none = there
  pick there delete_empty (some o) = some (finalised db delete_empty o)

  abbrev mark : Bool → Bool → Option StateObject → Bool
  mark was delete_empty none = was
  mark was delete_empty (some o) = is_gone db delete_empty o || was

  find-finalised :
      (delete_empty : Bool) (st : State) (a : ℕ) (c : Option StateObject)
      → changed db st a ≡ c
      → find db (finalise db delete_empty st) a ≡ elim c as (λ c. Option StateObject) [
        | none ↦ find db st a
        | some o ↦ some (finalised db delete_empty o)
      ]
  unfolding find finalise clear_journal_and_refund
  find-finalised delete_empty st a none h =
      ap (at_account (db.account a)) (ap (pick (st.objects a) delete_empty) h)
  find-finalised delete_empty st a (some o) h =
      ap (at_account (db.account a)) (ap (pick (st.objects a) delete_empty) h)

  destruct_finalised :
      (delete_empty : Bool) (st : State) (a : ℕ) (c : Option StateObject)
      → changed db st a ≡ c
      → (finalise db delete_empty st).objects_destruct a ≡ elim c as (λ c. Bool) [
        | none ↦ st.objects_destruct a
        | some o ↦ is_gone db delete_empty o || st.objects_destruct a
      ]
  unfolding finalise clear_journal_and_refund
  destruct_finalised delete_empty st a none h = ap (mark (st.objects_destruct a) delete_empty) h
  destruct_finalised delete_empty st a (some o) h = ap (mark (st.objects_destruct a) delete_empty) h

  abbrev destructed : StateObject → StateObject
  unfolding put_balance
  destructed x = put_balance (pos 0) (record x { suicided = true })

  self_destruct-changed :
      (st : State) (a : ℕ) (x : StateObject)
      → living db (find db st a) ≡ some x
      → changed db (self_destruct db st a) a ≡ some (destructed x)
  unfolding self_destruct get_state_object get_deleted_state_object destructed
  self_destruct-changed st a x h =
      let u = (get_deleted_state_object db st a).1 in
      ap
        (λ g.
          changed db
            (elim g as (λ g. State) [
              | none ↦ u
              | some y ↦
                  set_state_object (append (suicide_change a y.suicided y.data_of.balance) u) a
                    (put_balance (pos 0) (record y { suicided = true }))
            ])
            a)
        h
      ∙ unfold changed in unfold append in unfold set_state_object in ground arith

  exist-living :
      (st : State) (a : ℕ)
      → exist db st a ≡ true
      → (x : StateObject) × (living db (find db st a) ≡ some x)
  unfolding exist get_state_object get_deleted_state_object
  exist-living st a h = elim (Option-cases (living db (find db st a))) [
    | inl p ↦ cc (sym (ap (λ g. elim g as (λ g. Bool) [ none ↦ false | some x ↦ true ]) p) ∙ h)
    | inr (x, p) ↦ (x, p)
  ]

  exist-deleted :
      (st : State) (a : ℕ) (x : StateObject)
      → find db st a ≡ some (record x { deleted = true })
      → exist db st a ≡ false
  unfolding exist get_state_object get_deleted_state_object
  exist-deleted st a x h =
      ap (λ f. elim (living db f) as (λ g. Bool) [ none ↦ false | some x ↦ true ]) h

  -- A call of `SelfDestruct` on an account that exists, and the end of the transaction: the account does
  -- not exist, and its address is marked as destructed.
  pub finalise-self_destruct :
      (delete_empty : Bool) (st : State) (a : ℕ)
      → exist db st a ≡ true
      → (exist db (finalise db delete_empty (self_destruct db st a)) a ≡ false)
        × ((finalise db delete_empty (self_destruct db st a)).objects_destruct a ≡ true)
  unfolding destructed
  finalise-self_destruct delete_empty st a h =
      let (x, living_x) = exist-living st a h in
      let there = self_destruct-changed st a x living_x in
      let after = self_destruct db st a in
      (
        exist-deleted (finalise db delete_empty after) a (destructed x)
            (unfold finalised in find-finalised delete_empty after a (some (destructed x)) there),
        unfold is_gone in destruct_finalised delete_empty after a (some (destructed x)) there,
      )
