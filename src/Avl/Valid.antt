-- ===== src/Avl/Valid.antt =====
-- The whole invariant of the tree, and that every method keeps it and refines the sorted list.
use pangu.Prelude.{
  ℕ, ◌≡◌, refl, sym, ◌∙◌, subst, List, [], ◌∷◌, Option, some, delete, ◌>>=◌, Returns-both,
}
use pangu.Prelude.Int.{ℤ}
use pangu.Avl.{Node, nil, add, remove, update}
use pangu.Avl.Balance.{IsAvl, add-IsAvl, remove-IsAvl}
use pangu.Avl.Entries.{entries, HasSums}
use pangu.Avl.Update.{
  IsSorted, insert_sorted, insert-IsSorted, delete-IsSorted, Updated, add-Updated, remove-Updated,
}

pub record IsValid (t : Node) : Type 0 where
  pub balanced : IsAvl t
  pub sums : HasSums t
  pub sorted : IsSorted (entries t)

-- The method ends without a nil dereference, in a valid tree with these entries.
abbrev pub Gives : List (ℕ × ℤ) → Option Node → Type 0
Gives m o = (t : Node) × (o ≡ some t) × IsValid t × (entries t ≡ m)

gives :
    (m : List (ℕ × ℤ)) (o : Option Node)
    → IsSorted m
    → ((t : Node) × (o ≡ some t) × IsAvl t × Updated m t)
    → Gives m o
gives m o s (t, e, a, u) =
    (t, e, record { balanced = a; sums = u.1; sorted = subst IsSorted (sym u.0) s }, u.0)

-- On a valid tree `Add` does not dereference nil, returns a valid tree (balanced, in the order of its
-- keys, every cached sum the sum of its subtree's costs), and sets the cost at the key: the tree's
-- entries are the old ones with this one inserted or replaced.
pub add-Gives :
    (t : Node) (q : ℕ) (w : ℤ) → IsValid t → Gives (insert_sorted q w (entries t)) (add t q w)
add-Gives t q w v = gives _ (add t q w) (insert-IsSorted q w (entries t) v.sorted) (
    Returns-both IsAvl (Updated (insert_sorted q w (entries t))) (add t q w)
      (add-IsAvl t q w v.balanced) (add-Updated t q w v.sums v.sorted))

-- On a valid tree `Remove` does not dereference nil, returns a valid tree, and removes the entry of
-- the key, and no other.
pub remove-Gives : (t : Node) (q : ℕ) → IsValid t → Gives (delete q (entries t)) (remove t q)
remove-Gives t q v = gives _ (remove t q) (delete-IsSorted q (entries t) v.sorted) (
    Returns-both IsAvl (Updated (delete q (entries t))) (remove t q) (remove-IsAvl t q v.balanced)
      (remove-Updated t q v.sums v.sorted))

-- On a valid tree `Update` is the removal of the old key and then the insertion of the new one.
pub update-Gives :
    (t : Node) (q p : ℕ) (w : ℤ)
    → IsValid t
    → Gives (insert_sorted p w (delete q (entries t))) (update t q p w)
unfolding update
update-Gives t q p w v =
    let (t', e, v', m) = remove-Gives t q v in
    let (u, f, v'', n) = add-Gives t' p w v' in (u, rw (e, ◌>>=◌) f, v'', n ∙ rw m)

nil-IsValid : IsValid nil
nil-IsValid = record { balanced = tt; sums = tt; sorted = tt }

-- The calls of a client.
pub data Call : Type 0 where
  add_call : ℕ → ℤ → Call
  remove_call : ℕ → Call
  update_call : ℕ → ℕ → ℤ → Call

unfoldable pub run : List Call → Node → Option Node
run [] t = some t
run (add_call q w ∷ calls) t = add t q w >>= run calls
run (remove_call q ∷ calls) t = remove t q >>= run calls
run (update_call q p w ∷ calls) t = update t q p w >>= run calls

unfoldable pub replay : List Call → List (ℕ × ℤ) → List (ℕ × ℤ)
replay [] m = m
replay (add_call q w ∷ calls) m = replay calls (insert_sorted q w m)
replay (remove_call q ∷ calls) m = replay calls (delete q m)
replay (update_call q p w ∷ calls) m = replay calls (insert_sorted p w (delete q m))

run_refines :
    (calls : List Call) (t : Node) → IsValid t → Gives (replay calls (entries t)) (run calls t)
unfolding run replay
run_refines [] t v = (t, refl, v, refl)
run_refines (add_call q w ∷ calls) t v =
    let (u, e, v', m) = add-Gives t q w v in rw (e, ◌>>=◌) (rw m at (run_refines calls u v'))
run_refines (remove_call q ∷ calls) t v =
    let (u, e, v', m) = remove-Gives t q v in rw (e, ◌>>=◌) (rw m at (run_refines calls u v'))
run_refines (update_call q p w ∷ calls) t v =
    let (u, e, v', m) = update-Gives t q p w v in rw (e, ◌>>=◌) (rw m at (run_refines calls u v'))

-- From the empty tree every sequence of calls of `Add`, `Remove` and `Update` ends without a nil
-- dereference, in a valid tree whose entries are what the same calls make of a sorted list.
pub run-nil_refines : (calls : List Call) → Gives (replay calls []) (run calls nil)
run-nil_refines calls = run_refines calls nil nil-IsValid
