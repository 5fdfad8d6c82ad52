-- ===== src/Tests/Trees.antt =====
-- A tree of nonces with three entries.
use pangu.Prelude.{
  ℕ, ◌+◌, ◌*◌, ◌≡◌, ◌≤◌, ◌<◌, refl, List, [], ◌∷◌, Option, some, delete, lookup, arith, max, map,
}
use pangu.Prelude.Int.{ℤ, pos}
use pangu.Avl.{Node, nil, node, get_height, add, remove, update, search}
use pangu.Avl.Balance.{IsAvl}
use pangu.Avl.Entries.{entries, total, HasSums}
use pangu.Avl.Update.{IsSorted}
use pangu.Avl.Valid.{
  IsValid, Gives, remove-Gives, Call, add_call, remove_call, update_call, run, replay,
  run-nil_refines,
}
use pangu.Avl.Reads.{value_of, sum_upto, search_lem}

abbrev three : Node
three =
    node 2 (pos 5) (pos 12) 2 (node 1 (pos 4) (pos 4) 1 nil nil) (node 7 (pos 3) (pos 3) 1 nil nil)

three-IsAvl : IsAvl three
unfolding get_height
three-IsAvl = (
  omega arith,
  omega arith,
  omega arith,
  (omega arith, omega arith, omega arith, tt, tt),
  (omega arith, omega arith, omega arith, tt, tt),
)

three-HasSums : HasSums three
unfolding total pangu.Prelude.Int.◌+ℤ◌
three-HasSums = (refl, (refl, tt, tt), (refl, tt, tt))

three-IsSorted : IsSorted (entries three)
unfolding entries
three-IsSorted = ((omega arith, (omega arith, tt)), ((omega arith, tt), (tt, tt)))

three-IsValid : IsValid three
three-IsValid = record { balanced = three-IsAvl; sums = three-HasSums; sorted = three-IsSorted }

-- The third call rotates.
abbrev some_calls : List Call
some_calls =
    add_call 3 (pos 10)
    ∷ add_call 2 (pos 20)
    ∷ add_call 1 (pos 30)
    ∷ update_call 2 9 (pos 5)
    ∷ remove_call 3
    ∷ []

run_some :
    run some_calls nil ≡ some (node 9 (pos 5) (pos 35) 2 (node 1 (pos 30) (pos 30) 1 nil nil) nil)
unfolding run add update remove pangu.Prelude.Int.◌+ℤ◌
run_some = refl

run-nil_refines_example : Gives (replay some_calls []) (run some_calls nil)
run-nil_refines_example = run-nil_refines some_calls

remove-Gives_example : Gives (delete 2 (entries three)) (remove three 2)
remove-Gives_example = remove-Gives three 2 three-IsValid

search_lem_example :
    (value_of (search three 7).0 ≡ lookup 7 (entries three))
    × ((search three 7).1 ≡ sum_upto 7 (entries three))
search_lem_example = search_lem three 7 three-HasSums three-IsSorted
