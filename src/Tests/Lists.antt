-- ===== src/Tests/Lists.antt =====
-- An access list with two addresses, and calls on it.
use pangu.Prelude.{ℕ, ◌≡◌, ◌≢◌, ◌↔◌, List, [], ◌∷◌, some, arith, All, lookup, zero, suc, get_elem?}
use pangu.AccessList.{no_slots, at, AccessList}
use pangu.AccessList.Laws.{IsValid}
use pangu.AccessList.Journal.{State, revert, Call, address_call, slot_call, run}
use pangu.AccessList.Journal.Undo.{revert-run}
use pangu.AccessList.Conflict.{conflict_detection}
use pangu.AccessList.Conflict.Verdict.{Declared, Accepts, conflict_detection_iff}

abbrev two_listed : AccessList
two_listed = record { addresses = (10, at 0) ∷ (20, no_slots) ∷ []; slots = (5 ∷ 6 ∷ []) ∷ [] }

two_listed_full : (i : ℕ) (m : List ℕ) → get_elem? two_listed.slots i ≡ some m → m ≢ []
two_listed_full zero m h e = cc
two_listed_full (suc i) m h e = cc

two_listed-IsValid : IsValid two_listed
unfolding lookup
two_listed-IsValid = record {
  in_range = λ a i h. ground arith;
  distinct = λ a b i h k. ground arith;
  nonempty = two_listed_full;
}

abbrev listed_state : State
listed_state = record { access_list = two_listed; entries = [] }

abbrev three_calls : List Call
three_calls = slot_call 20 7 ∷ address_call 30 ∷ slot_call 30 8 ∷ []

revert-run_example :
    (st : State) × (run three_calls listed_state ≡ some st)
    × IsValid st.access_list
    × (revert st 0 ≡ some listed_state)
revert-run_example = revert-run three_calls listed_state two_listed-IsValid

conflict_detection_iff_example :
    Accepts (conflict_detection two_listed two_listed)
    ↔ All (Declared two_listed) two_listed.addresses
conflict_detection_iff_example = conflict_detection_iff two_listed two_listed two_listed-IsValid
