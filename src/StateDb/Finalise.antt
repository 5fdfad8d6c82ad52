-- ===== src/StateDb/Finalise.antt =====
-- core/state/statedb.go, `Finalise` at the end of a transaction, over the accounts that the journal counts
-- as changed. Each is handled by itself, so that the order of the map does not count; the prefetcher and
-- the snapshot tree are left out.
pub mod Closing
use pangu.Prelude.{
  ℕ, suc, ◌+◌, ◌≡◌, refl, sym, subst, ap, ◌∙◌, Bool, true, false, ◌&&◌, ◌||◌, Option, none, some,
  List, [], ◌∷◌, ◌==◌, ==_iff, if◌then◌else◌, arith, Bool-cases, Option-cases, inl, inr,
}
use pangu.World.{update}
use pangu.Prelude.Int.{ℤ, pos}
use pangu.StateObject.{
  Database, StateAccount, new_object, StateObject, is_empty_object, finalise_object, get_state_of,
  get_committed_state, get_code_of, put_balance,
}
use pangu.StateDb.{
  Entry, suicide_change, State, append, find, get_state_object, get_deleted_state_object,
  set_state_object, self_destruct,
}
use pangu.StateDb.Journal.{search_revision, revert_to_snapshot}
use pangu.StateDb.Similar.{View, view_of, see, peek}
use pangu.StateDb.Undo.{peek_at}
use pangu.StateDb.Views.{view-same}
use pangu.StateDb.Accounts.{living, living-some}
use pangu.StateDb.Reads.{exist}

-- `clearJournalAndRefund`: without an entry, the counts of changed accounts and the refund stay.
unfoldable pub clear_journal_and_refund : State → State
clear_journal_and_refund st = record st {
  entries = [];
  dirties = (elim st.entries [ [] ↦ st.dirties | e ∷ es ↦ λ a. 0 ]);
  refund = (elim st.entries [ [] ↦ st.refund | e ∷ es ↦ 0 ]);
  valid_revisions = [];
}

module _ (db : Database) where
  -- The object is to be deleted.
  unfoldable pub is_gone : Bool → StateObject → Bool
  unfolding is_empty_object
  is_gone delete_empty o = o.suicided || (delete_empty && is_empty_object db o)

  unfoldable pub finalised : Bool → StateObject → StateObject
  unfolding is_gone finalise_object
  finalised delete_empty o =
      if is_gone delete_empty o then record o { deleted = true } else finalise_object o

  -- The object in memory of an account that changed.
  unfoldable pub changed : State → ℕ → Option StateObject
  changed st a = if st.dirties a == 0 then none else st.objects a

  -- `Finalise`
  unfoldable pub finalise : Bool → State → State
  unfolding changed finalised is_gone clear_journal_and_refund
  finalise delete_empty st = clear_journal_and_refund (record st {
    objects =
        λ a. elim (changed st a) [ none ↦ st.objects a | some o ↦ some (finalised delete_empty o) ];
    objects_destruct = λ a. elim (changed st a) [
      | none ↦ st.objects_destruct a
      | some o ↦ is_gone delete_empty o || st.objects_destruct a
    ];
    objects_pending = λ a. elim (changed st a) [ none ↦ st.objects_pending a | some o ↦ true ];
    objects_dirty = λ a. elim (changed st a) [ none ↦ st.objects_dirty a | some o ↦ true ];
  })
