-- ===== src/AccessList/Conflict.antt =====
-- `ConflictDetection` of accesslist/accessList.go: the comparison of the access list of a run with the
-- one that the user declared.
pub mod Verdict
use pangu.Prelude.{
  ℕ, Bool, true, false, Option, none, some, List, [], ◌∷◌, ◌++◌, ◌==◌, if◌then◌else◌, contains,
  length, get_elem?, lookup,
}
use pangu.AccessList.{AccessList, Index, no_slots, at, contains_address}

-- The results: whether there is no conflict, whether the conflict has slots, where it is, its slots.
abbrev pub Verdict : Type 0
Verdict = Bool × Bool × ℕ × List ℕ

-- `for key := range m { tempUser = append(tempNew, key) }`: each round starts from `tempNew`.
unfoldable pub user_slots : List ℕ → List ℕ → List ℕ → List ℕ
user_slots temp_new [] temp_user = temp_user
user_slots temp_new (key ∷ m) temp_user = user_slots temp_new m (temp_new ++ (key ∷ []))

-- Whether each user slot is one of the run's.
unfoldable pub all_equal : List ℕ → List ℕ → Bool
all_equal [] temp_new = true
all_equal (a ∷ temp_user) temp_new =
    let rest = all_equal temp_user temp_new in if contains temp_new a then rest else false

-- `UserAL.Slots[UserAL.Addresses[key]]`; `none` is a panic, at the index -1 too. A missing key gives
-- the index 0.
unfoldable pub user_map : AccessList → ℕ → Option (List ℕ)
unfolding lookup
user_map user key = elim (lookup key user.addresses) [
  | none ↦ get_elem? user.slots 0
  | some no_slots ↦ none
  | some (at i) ↦ get_elem? user.slots i
]

-- The check of one address of the run that has slots; `none` inside lets the loop go on.
unfoldable pub check_slots : AccessList → ℕ → List ℕ → Option (Option Verdict)
unfolding contains_address user_slots all_equal user_map
check_slots user key temp_new =
    if contains_address user key
    then (elim (user_map user key) [
      | none ↦ none
      | some m ↦
          let temp_user = user_slots temp_new m [] in
          if length temp_new == length temp_user
          then (if all_equal temp_user temp_new
              then some none
              else some (some (false, true, key, temp_new)))
          else some (some (false, true, key, temp_new))
    ])
    else some (some (false, true, key, temp_new))

-- The loop over the run's addresses.
unfoldable pub detect : AccessList → List (List ℕ) → List (ℕ × Index) → Option Verdict
unfolding contains_address check_slots
detect user slots [] = some (true, true, 0, [])
detect user slots ((key, no_slots) ∷ rest) =
    let go_on = detect user slots rest in
    if contains_address user key then go_on else some (false, false, key, [])
detect user slots ((key, at i) ∷ rest) = elim (get_elem? slots i) [
  | none ↦ none
  | some temp_new ↦ elim (check_slots user key temp_new) [
    | none ↦ none
    | some none ↦ detect user slots rest
    | some (some verdict) ↦ some verdict
  ]
]

unfoldable pub conflict_detection : AccessList → AccessList → Option Verdict
unfolding detect
conflict_detection new user = detect user new.slots new.addresses
