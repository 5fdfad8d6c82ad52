-- ===== src/AccessList/Journal/Undo.antt =====
-- Undoing journal entries: the list and the journal as they were.
use pangu.Prelude.{
  ℕ, zero, suc, ◌+◌, ◌-◌, ◌≡◌, refl, sym, subst, ap, false, Option, none, some, List, [], ◌∷◌,
  arith, inl, inr, Bool-cases, Option-cases, contains, length, get_elem?, set, lookup, insert,
  lookup-insert, insert-insert, insert_same, delete-insert_new, get_elem?-append, get_elem?-set,
  set-set_back, take_append, get_elem?-some,
}
use native.Mathlib.Nat.{zero-add, suc-add}
use pangu.AccessList.{
  AccessList, Index, no_slots, at, open_slots, delete_slot, delete_address, remove_slot,
}
use pangu.AccessList.Journal.{
  Entry, add_account_change, add_slot_change, State, revert_entry, add_address_to_access_list,
  add_slot_to_access_list, undo, revert, Call, address_call, slot_call, run,
}
use pangu.AccessList.Laws.{IsValid, bare-IsValid, open_slots-IsValid, grown-IsValid}

undo_trans :
    (m k : ℕ) (al : AccessList) (es : List Entry) {u st : State}
    → undo m al es ≡ some u
    → undo k u.access_list u.entries ≡ some st
    → undo (m + k) al es ≡ some st
unfolding undo
undo_trans zero k al es h g = rw zero-add (ground arith)
undo_trans (suc m) k al [] h g = cc
undo_trans (suc m) k al (e ∷ es) h g = elim (Option-cases (revert_entry e al)) [
  | inl p ↦ cc (rw p at h)
  | inr (al', p) ↦ rw (suc-add, p) (undo_trans m k al' es (rw p at h) g)
]

remove_slot_absent : (s : ℕ) (m : List ℕ) → contains m s ≡ false → remove_slot s m ≡ m
unfolding remove_slot
remove_slot_absent s [] h = refl
remove_slot_absent s (x ∷ m) h = ground (arith, remove_slot_absent s m)

-- Undoing a new slot map, and undoing a new slot in a map.
delete_slot-open_slots :
    (al : AccessList) (a s : ℕ)
    → delete_slot (open_slots al a s) a s
      ≡ some (record al { addresses = insert a no_slots al.addresses })
unfolding delete_slot open_slots
delete_slot-open_slots al a s = ground (
  arith,
  lookup-insert a a (at (length al.slots)) al.addresses,
  get_elem?-append al.slots (s ∷ []) (length al.slots),
  insert-insert a (at (length al.slots)) no_slots al.addresses,
  take_append al.slots ((s ∷ []) ∷ []),
)

delete_slot-grown :
    (al : AccessList) (a s i : ℕ) (m : List ℕ)
    → IsValid al
    → lookup a al.addresses ≡ some (at i)
    → get_elem? al.slots i ≡ some m
    → contains m s ≡ false
    → delete_slot (record al { slots = set al.slots i (s ∷ m) }) a s ≡ some al
unfolding delete_slot
delete_slot-grown al a s i [] v h g c = absurd (v.nonempty i [] g refl)
delete_slot-grown al a s i (x ∷ m) v h g c = ground (
  arith,
  get_elem?-set al.slots i i (s ∷ x ∷ m) (v.in_range a i h),
  remove_slot_absent s (x ∷ m) c,
  set-set_back al.slots i (s ∷ x ∷ m) (x ∷ m) g,
)

-- The later state's list is valid, and undoing the entries that it has more gives the state before.
pub record Reverts (st st' : State) : Type 0 where
  pub valid : IsValid st'.access_list
  pub count : ℕ
  pub longer : length st'.entries ≡ length st.entries + count
  pub undone : undo count st'.access_list st'.entries ≡ some st

abbrev bare : AccessList → ℕ → AccessList
bare al a = record al { addresses = insert a no_slots al.addresses }

delete_address-bare :
    (al : AccessList) (a : ℕ) → lookup a al.addresses ≡ none → delete_address (bare al a) a ≡ al
unfolding delete_address
delete_address-bare al a e = ground (arith, delete-insert_new a no_slots al.addresses e)

-- A step that changes nothing.
Reverts-refl : (st : State) → IsValid st.access_list → Reverts st st
unfolding undo
Reverts-refl st v = record { valid = v; count = 0; longer = omega arith; undone = refl }

pub add_address-Reverts :
    (st : State) (a : ℕ) → IsValid st.access_list → Reverts st (add_address_to_access_list st a)
unfolding undo revert_entry
add_address-Reverts st a v = go (lookup a st.access_list.addresses) refl
  where
    al : AccessList
    al = st.access_list

    go :
        (o : Option Index)
        → lookup a al.addresses ≡ o
        → Reverts st (add_address_to_access_list st a)
    go none e =
        let after : State = record {
          access_list = bare al a;
          entries = add_account_change a ∷ st.entries;
        } in
        let step : add_address_to_access_list st a ≡ after =
          unfold add_address_to_access_list in ground arith in
        subst (Reverts st) (sym step) (record {
          valid = bare-IsValid al a v e;
          count = 1;
          longer = omega arith;
          undone = rw (delete_address-bare al a e);
        })
    go (some i) e =
        let step : add_address_to_access_list st a ≡ st =
          unfold add_address_to_access_list in ground arith in
        subst (Reverts st) (sym step) (Reverts-refl st v)

pub add_slot-Reverts :
    (st : State) (a s : ℕ)
    → IsValid st.access_list
    → (st' : State) × (add_slot_to_access_list st a s ≡ some st') × Reverts st st'
add_slot-Reverts st a s v = go (lookup a st.access_list.addresses) refl
  where
    al : AccessList
    al = st.access_list

    go :
        (o : Option Index)
        → lookup a al.addresses ≡ o
        → (st' : State) × (add_slot_to_access_list st a s ≡ some st') × Reverts st st'
    go none e = (
      record {
        access_list = open_slots al a s;
        entries = add_slot_change a s ∷ add_account_change a ∷ st.entries;
      },
      unfold add_slot_to_access_list in ground arith,
      record {
        valid = open_slots-IsValid al a s v;
        count = 2;
        longer = omega arith;
        undone =
            unfold undo revert_entry in
            rw (delete_slot-open_slots al a s) (
              ap (λ l. some (record { access_list = l; entries = st.entries }))
                (delete_address-bare al a e));
      },
    )
    go (some no_slots) e = (
      record { access_list = open_slots al a s; entries = add_slot_change a s ∷ st.entries },
      unfold add_slot_to_access_list in ground arith,
      record {
        valid = open_slots-IsValid al a s v;
        count = 1;
        longer = omega arith;
        undone =
            unfold undo revert_entry in
            rw (delete_slot-open_slots al a s)
              (ground (arith, insert_same a no_slots al.addresses e));
      },
    )
    go (some (at i)) e =
        let (m, f) = get_elem?-some al.slots i (v.in_range a i e) in
        elim (Bool-cases (contains m s)) [
          | inl c ↦ (st, unfold add_slot_to_access_list in ground arith, Reverts-refl st v)
          | inr c ↦ (
            record {
              access_list = record al { slots = set al.slots i (s ∷ m) };
              entries = add_slot_change a s ∷ st.entries;
            },
            unfold add_slot_to_access_list in ground arith,
            record {
              valid = grown-IsValid al a s i m v e f;
              count = 1;
              longer = omega arith;
              undone =
                  unfold undo revert_entry in ground (arith, delete_slot-grown al a s i m v e f c);
            },
          )
        ]

Reverts-trans : {st u st' : State} → Reverts st u → Reverts u st' → Reverts st st'
Reverts-trans p q = record {
  valid = q.valid;
  count = q.count + p.count;
  longer = omega arith;
  undone = undo_trans q.count p.count _ _ q.undone p.undone;
}

run-Reverts :
    (calls : List Call) (st : State)
    → IsValid st.access_list
    → (st' : State) × (run calls st ≡ some st') × Reverts st st'
unfolding run
run-Reverts [] st v = (st, refl, Reverts-refl st v)
run-Reverts (address_call a ∷ calls) st v =
    let r = add_address-Reverts st a v in
    let (st', e, r') = run-Reverts calls _ r.valid in (st', e, Reverts-trans r r')
run-Reverts (slot_call a s ∷ calls) st v =
    let (u, f, r) = add_slot-Reverts st a s v in
    let (st', e, r') = run-Reverts calls u r.valid in (st', rw f e, Reverts-trans r r')

-- Any sequence of additions of addresses and slots to a valid access list ends without a panic, in a
-- valid list; and reverting the journal to its length before gives back the state before, the access
-- list and the journal.
pub revert-run :
    (calls : List Call) (st : State)
    → IsValid st.access_list
    → (st' : State) × (run calls st ≡ some st')
      × IsValid st'.access_list
      × (revert st' (length st.entries) ≡ some st)
unfolding revert
revert-run calls st v =
    let (st', e, r) = run-Reverts calls st v in
    let k : length st'.entries - length st.entries ≡ r.count = omega arith in
    (st', e, r.valid, rw k r.undone)
