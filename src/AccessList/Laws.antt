-- ===== src/AccessList/Laws.antt =====
-- The access list as a set of addresses and of pairs of an address and a slot.
use pangu.Prelude.{
  ℕ, ◌<◌, ◌≡◌, ◌≢◌, refl, Bool, false, not, ◌&&◌, ◌||◌, Option, none, some, List, [], ◌∷◌, arith,
  ◌==◌, inl, inr, Bool-cases, contains, length, get_elem?, set, lookup, insert, lookup-insert,
  get_elem?-append, get_elem?-set, length-set, length-append, get_elem?-some,
}
use pangu.AccessList.{
  AccessList, Index, no_slots, at, new_access_list, contains_address, add_address, open_slots,
  add_slot, contains_slot,
}

-- Every index is one of `Slots`, no two addresses share one, and no slot map is empty.
pub record IsValid (al : AccessList) : Type 0 where
  pub in_range : (a i : ℕ) → lookup a al.addresses ≡ some (at i) → i < length al.slots
  pub distinct :
      (a b i : ℕ)
      → lookup a al.addresses ≡ some (at i)
      → lookup b al.addresses ≡ some (at i)
      → a ≡ b
  pub nonempty : (i : ℕ) (m : List ℕ) → get_elem? al.slots i ≡ some m → m ≢ []

pub new-IsValid : IsValid new_access_list
unfolding new_access_list lookup
new-IsValid = record { in_range = λ a i h. cc; distinct = λ a b i h k. cc; nonempty = λ i m h. cc }

-- Whether the pair of an address and a slot is listed.
unfoldable pub holds : AccessList → ℕ → ℕ → Bool
unfolding lookup
holds al a s = elim (lookup a al.addresses) [
  | none ↦ false
  | some no_slots ↦ false
  | some (at i) ↦ elim (get_elem? al.slots i) [ none ↦ false | some m ↦ contains m s ]
]

-- On a valid list `Contains` does not panic, and returns the two memberships.
pub contains_slot_lem :
    (al : AccessList) (a s : ℕ)
    → IsValid al
    → contains_slot al a s ≡ some (contains_address al a, holds al a s)
unfolding contains_slot contains_address holds
contains_slot_lem al a s v = go (lookup a al.addresses) refl
  where
    go :
        (o : Option Index)
        → lookup a al.addresses ≡ o
        → contains_slot al a s ≡ some (contains_address al a, holds al a s)
    go none e = ground arith
    go (some no_slots) e = ground arith
    go (some (at i)) e = let (m, f) = get_elem?-some al.slots i (v.in_range a i e) in ground arith

pub open_slots-IsValid : (al : AccessList) (a s : ℕ) → IsValid al → IsValid (open_slots al a s)
unfolding open_slots
open_slots-IsValid al a s v = record {
  in_range = λ b i h. grind (
    arith,
    lookup-insert a b (at (length al.slots)) al.addresses,
    length-append al.slots ((s ∷ []) ∷ []),
    v.in_range b i,
  );
  distinct = λ b c i h k. grind (
    arith,
    lookup-insert a b (at (length al.slots)) al.addresses,
    lookup-insert a c (at (length al.slots)) al.addresses,
    v.in_range b i,
    v.in_range c i,
    v.distinct b c i,
  );
  nonempty = λ i m h. grind (arith, get_elem?-append al.slots (s ∷ []) i, v.nonempty i m);
}

-- What `AddSlot` must do to both memberships.
abbrev pub AddsSlot : AccessList → ℕ → ℕ → AccessList → Type 0
AddsSlot al a s al' =
    (b t : ℕ)
    → (contains_address al' b ≡ (contains_address al b || b == a))
      × (holds al' b t ≡ (holds al b t || (b == a && t == s)))

open_slots-AddsSlot :
    (al : AccessList) (a s : ℕ)
    → IsValid al
    → ((t : ℕ) → holds al a t ≡ false)
    → AddsSlot al a s (open_slots al a s)
unfolding open_slots holds contains_address
open_slots-AddsSlot al a s v n b t = (
  grind (arith, lookup-insert a b (at (length al.slots)) al.addresses),
  go (lookup b al.addresses) refl,
)
  where
    go :
        (o : Option Index)
        → lookup b al.addresses ≡ o
        → holds (open_slots al a s) b t ≡ (holds al b t || (b == a && t == s))
    go none e = ground (
      arith,
      lookup-insert a b (at (length al.slots)) al.addresses,
      get_elem?-append al.slots (s ∷ []) (length al.slots),
    )
    go (some no_slots) e = ground (
      arith,
      lookup-insert a b (at (length al.slots)) al.addresses,
      get_elem?-append al.slots (s ∷ []) (length al.slots),
    )
    go (some (at i)) e = ground (
      arith,
      lookup-insert a b (at (length al.slots)) al.addresses,
      get_elem?-append al.slots (s ∷ []) (length al.slots),
      get_elem?-append al.slots (s ∷ []) i,
      v.in_range b i e,
      n t,
    )

module _ (al : AccessList) (a s i : ℕ) (m : List ℕ) (v : IsValid al)
    (listed : lookup a al.addresses ≡ some (at i)) (found : get_elem? al.slots i ≡ some m) where
  abbrev pub grown : AccessList
  grown = record al { slots = set al.slots i (s ∷ m) }

  pub grown-IsValid : IsValid grown
  grown-IsValid = record {
    in_range = λ b j h. rw length-set (v.in_range b j h);
    distinct = v.distinct;
    nonempty = λ j n h.
        grind (arith, get_elem?-set al.slots i j (s ∷ m) (v.in_range a i listed), v.nonempty j n);
  }

  grown-AddsSlot : AddsSlot al a s grown
  unfolding contains_address holds
  grown-AddsSlot b t = (ground arith, go (lookup b al.addresses) refl)
    where
      go :
          (o : Option Index)
          → lookup b al.addresses ≡ o
          → holds grown b t ≡ (holds al b t || (b == a && t == s))
      go none e = ground arith
      go (some no_slots) e = ground arith
      go (some (at j)) e = ground (
        arith,
        get_elem?-set al.slots i j (s ∷ m) (v.in_range a i listed),
        v.distinct a b i listed,
      )

-- On a valid list `AddSlot` does not panic. It returns whether the address and whether the pair were
-- new, keeps the list valid, and adds the address and the pair to what is listed, and nothing else.
pub add_slot_lem :
    (al : AccessList) (a s : ℕ)
    → IsValid al
    → (al' : AccessList) × (add_slot al a s
        ≡ some (al', not (contains_address al a), not (holds al a s)))
      × IsValid al'
      × AddsSlot al a s al'
unfolding add_slot contains_address holds
add_slot_lem al a s v = go (lookup a al.addresses) refl
  where
    go :
        (o : Option Index)
        → lookup a al.addresses ≡ o
        → (al' : AccessList) × (add_slot al a s
            ≡ some (al', not (contains_address al a), not (holds al a s)))
          × IsValid al'
          × AddsSlot al a s al'
    go none e = (
      open_slots al a s,
      ground arith,
      open_slots-IsValid al a s v,
      open_slots-AddsSlot al a s v (λ t. ground arith),
    )
    go (some no_slots) e = (
      open_slots al a s,
      ground arith,
      open_slots-IsValid al a s v,
      open_slots-AddsSlot al a s v (λ t. ground arith),
    )
    go (some (at i)) e =
        let (m, f) = get_elem?-some al.slots i (v.in_range a i e) in
        elim (Bool-cases (contains m s)) [
          | inl c ↦ (al, ground arith, v, λ b t. (ground arith, ground arith))
          | inr c ↦ (
            grown al a s i m v e f,
            ground arith,
            grown-IsValid al a s i m v e f,
            grown-AddsSlot al a s i m v e f,
          )
        ]

pub bare-IsValid :
    (al : AccessList) (a : ℕ)
    → IsValid al
    → lookup a al.addresses ≡ none
    → IsValid (record al { addresses = insert a no_slots al.addresses })
bare-IsValid al a v e = record {
  in_range = λ b i h. grind (arith, lookup-insert a b no_slots al.addresses, v.in_range b i);
  distinct = λ b c i h k. grind (
    arith,
    lookup-insert a b no_slots al.addresses,
    lookup-insert a c no_slots al.addresses,
    v.distinct b c i,
  );
  nonempty = v.nonempty;
}

-- `AddAddress` keeps the list valid, adds the address and no slot, and returns whether it was new.
pub add_address_lem :
    (al : AccessList) (a : ℕ)
    → IsValid al
    → ((add_address al a).1 ≡ not (contains_address al a))
      × IsValid (add_address al a).0
      × ((b t : ℕ)
          → (contains_address (add_address al a).0 b ≡ (contains_address al b || b == a))
            × (holds (add_address al a).0 b t ≡ holds al b t))
unfolding add_address contains_address holds
add_address_lem al a v = go (lookup a al.addresses) refl
  where
    go :
        (o : Option Index)
        → lookup a al.addresses ≡ o
        → ((add_address al a).1 ≡ not (contains_address al a))
          × IsValid (add_address al a).0
          × ((b t : ℕ)
              → (contains_address (add_address al a).0 b ≡ (contains_address al b || b == a))
                × (holds (add_address al a).0 b t ≡ holds al b t))
    go none e = (
      ground arith,
      rw (e, add_address) (bare-IsValid al a v e),
      λ b t. (
        ground (arith, lookup-insert a b no_slots al.addresses),
        ground (arith, lookup-insert a b no_slots al.addresses),
      ),
    )
    go (some j) e = (ground arith, rw (e, add_address) v, λ b t. (ground arith, ground arith))
