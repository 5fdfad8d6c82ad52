-- ===== src/AccessList/Conflict/Verdict.antt =====
-- When the detection reports no conflict.
use pangu.Prelude.{
  ℕ, ◌+◌, ◌≡◌, ◌≢◌, ◌↔◌, ◌⊎◌, refl, true, false, Option, none, some, List, [], ◌∷◌, ◌++◌, ◌==◌,
  arith, length, get_elem?, All, length-append, Option-cases, Bool-cases, inl, inr,
}
use pangu.AccessList.{AccessList, Index, no_slots, at, contains_address}
use pangu.AccessList.Laws.{IsValid}
use pangu.AccessList.Conflict.{
  Verdict, user_slots, user_map, check_slots, detect, conflict_detection,
}

length-user_slots :
    (t m u : List ℕ) → length u ≡ length t + 1 → length (user_slots t m u) ≡ length t + 1
unfolding user_slots
length-user_slots t [] u h = h
length-user_slots t (k ∷ m) u h = length-user_slots t m (t ++ (k ∷ [])) (length-append t (k ∷ []))

-- The lengths of the run's slots and of what is collected from the user's differ, if the run has any.
length_differs : (t m : List ℕ) → t ≢ [] → (length t == length (user_slots t m [])) ≡ false
unfolding user_slots
length_differs [] m h = absurd (h refl)
length_differs (x ∷ t) [] h = ground arith
length_differs (x ∷ t) (k ∷ m) h =
    ground
      (arith, length-user_slots (x ∷ t) m ((x ∷ t) ++ (k ∷ [])) (length-append (x ∷ t) (k ∷ [])))

check_slots_rejects :
    (user : AccessList) (key : ℕ) (t : List ℕ)
    → t ≢ []
    → (check_slots user key t ≡ none) ⊎ (check_slots user key t ≡ some (some (false, true, key, t)))
unfolding check_slots
check_slots_rejects user key t h = elim (Bool-cases (contains_address user key)) [
  | inr c ↦ inr (rw c)
  | inl c ↦ elim (Option-cases (user_map user key)) [
    | inl e ↦ inl (rw (c, e))
    | inr (m, e) ↦ inr (rw (c, e, length_differs t m h))
  ]
]

-- The run's entry is an address without slots, which the user declared.
abbrev pub Declared : AccessList → ℕ × Index → Type 0
Declared user e = (e.1 ≡ no_slots) × (contains_address user e.0 ≡ true)

abbrev pub Accepts : Option Verdict → Type 0
Accepts o = (v : Verdict) × (o ≡ some v) × (v.0 ≡ true)

detect_accepts :
    (user : AccessList) (slots : List (List ℕ)) (es : List (ℕ × Index))
    → All (Declared user) es
    → detect user slots es ≡ some (true, true, 0, [])
unfolding detect
detect_accepts user slots [] a = refl
detect_accepts user slots ((key, no_slots) ∷ es) a = rw a.0.1 (detect_accepts user slots es a.1)
detect_accepts user slots ((key, at i) ∷ es) a = cc (a.0.0)

detect_sound :
    (user : AccessList) (slots : List (List ℕ)) (es : List (ℕ × Index))
    → ((i : ℕ) (m : List ℕ) → get_elem? slots i ≡ some m → m ≢ [])
    → Accepts (detect user slots es)
    → All (Declared user) es
unfolding detect
detect_sound user slots [] n a = tt
detect_sound user slots ((key, no_slots) ∷ es) n (v, e, t) =
    elim (Bool-cases (contains_address user key)) [
      | inl c ↦ ((refl, c), detect_sound user slots es n (v, rw c at e, t))
      | inr c ↦ cc (rw c at e)
    ]
detect_sound user slots ((key, at i) ∷ es) n (v, e, t) = elim (Option-cases (get_elem? slots i)) [
  | inl g ↦ absurd (ground arith)
  | inr (m, g) ↦ elim (check_slots_rejects user key m (n i m g)) [
    | inl c ↦ absurd (ground arith)
    | inr c ↦ absurd (ground arith)
  ]
]

-- For a valid access list of a run, the detection reports no conflict exactly when the run touched
-- no slot at all and every address that it touched is declared. A run that touched a slot is
-- reported, or panics, also where the user declared exactly that slot.
pub conflict_detection_iff :
    (new user : AccessList)
    → IsValid new
    → Accepts (conflict_detection new user) ↔ All (Declared user) new.addresses
unfolding conflict_detection
conflict_detection_iff new user v = (
  detect_sound user new.slots new.addresses v.nonempty,
  λ a. ((true, true, 0, []), detect_accepts user new.slots new.addresses a, refl),
)
