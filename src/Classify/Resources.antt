-- ===== src/Classify/Resources.antt =====
-- The resources of an access list: when there are any, and the storage keys that are left out.
use pangu.Prelude.{
  ℕ, suc, zero, ◌≡◌, ◌<◌, refl, subst, true, false, ◌||◌, Option, none, some, List, [], ◌∷◌, ◌++◌,
  arith, ◌==◌, length, All, get_elem?, get_elem?-some, Ensures, Ensures-bind, Option-cases, ◌≢◌,
  Bool-cases, inl, inr,
}
use pangu.AccessList.{AccessList, Index, no_slots, at}
use pangu.Classify.{
  Resource, address, storage, same_resource, has, is_conflict, storage_of, entry_resources,
  merge_entries, merge_access_list,
}

-- The index of an entry is one of `Slots`.
abbrev pub InRange : List (List ℕ) → ℕ × Index → Type 0
InRange slots (a, no_slots) = Unit
InRange slots (a, at i) = i < length slots

-- An access list that is there, with its indices in range.
abbrev pub Readable : Option AccessList → Type 0
Readable none = ⊥
Readable (some al) = All (InRange al.slots) al.addresses

entry_resources-some :
    (slots : List (List ℕ)) (a : ℕ) (num : Index)
    → InRange slots (a, num)
    → (rs : List Resource) × (entry_resources slots a num ≡ some rs)
unfolding entry_resources
entry_resources-some slots a no_slots h = (address a ∷ [], refl)
entry_resources-some slots a (at zero) h = (address a ∷ [], refl)
entry_resources-some slots a (at (suc i)) h =
    let (m, e) = get_elem?-some slots (suc i) h in (storage_of a m, rw (e, entry_resources) refl)

merge_entries-some :
    (slots : List (List ℕ)) (entries : List (ℕ × Index))
    → All (InRange slots) entries
    → (rs : List Resource) × (merge_entries slots entries ≡ some rs)
unfolding merge_entries
merge_entries-some slots [] h = ([], refl)
merge_entries-some slots ((a, num) ∷ entries) (h, k) =
    let (rs, e) = entry_resources-some slots a num h in
    let (rest, f) = merge_entries-some slots entries k in (rs ++ rest, rw (e, f) refl)

pub merge_access_list-some :
    (al : Option AccessList) → Readable al → (rs : List Resource) × (merge_access_list al ≡ some rs)
unfolding merge_access_list
merge_access_list-some none h = absurd h
merge_access_list-some (some al) h = merge_entries-some al.slots al.addresses h

pub has-append : (xs ys : List Resource) (r : Resource) → has (xs ++ ys) r ≡ (has xs r || has ys r)
unfolding has
has-append [] ys r = refl
has-append (x ∷ xs) ys r = ground (arith, has-append xs ys r)

pub is_conflict-append :
    (xs ys zs : List Resource)
    → is_conflict xs (ys ++ zs) ≡ (is_conflict xs ys || is_conflict xs zs)
unfolding is_conflict
is_conflict-append [] ys zs = refl
is_conflict-append (x ∷ xs) ys zs = ground (arith, has-append ys zs x, is_conflict-append xs ys zs)

storage_of-other :
    (a b s : ℕ) (m : List ℕ) → ((b == a) ≡ false) → has (storage_of b m) (storage a s) ≡ false
unfolding storage_of has same_resource
storage_of-other a b s [] h = refl
storage_of-other a b s (t ∷ m) h = ground (arith, storage_of-other a b s m h)

-- Every entry of the address has the index 0.
abbrev pub FirstOnly : ℕ → ℕ × Index → Type 0
FirstOnly a e = ((e.0 == a) ≡ true) → e.1 ≡ at 0

at_suc : (i : ℕ) → at (suc i) ≢ at 0
at_suc i e = ground arith

entry_resources-first :
    (slots : List (List ℕ)) (a s b : ℕ) (num : Index)
    → FirstOnly a (b, num)
    → Ensures (λ rs. has rs (storage a s) ≡ false) (entry_resources slots b num)
unfolding entry_resources has same_resource
entry_resources-first slots a s b no_slots h = refl
entry_resources-first slots a s b (at zero) h = refl
entry_resources-first slots a s b (at (suc i)) h = elim (Bool-cases (b == a)) [
  | inl q ↦ absurd (at_suc i (h q))
  | inr q ↦ elim (Option-cases (get_elem? slots (suc i))) [
    | inl e ↦ rw (e, entry_resources, Ensures) tt
    | inr (m, e) ↦ rw (e, entry_resources, Ensures) (storage_of-other a b s m q)
  ]
]

merge_entries-first :
    (slots : List (List ℕ)) (a s : ℕ) (entries : List (ℕ × Index))
    → All (FirstOnly a) entries
    → Ensures (λ rs. has rs (storage a s) ≡ false) (merge_entries slots entries)
unfolding merge_entries has
merge_entries-first slots a s [] h = refl
merge_entries-first slots a s ((b, num) ∷ entries) (h, k) =
    Ensures-bind _ _ (entry_resources slots b num) _ (entry_resources-first slots a s b num h)
      (λ rs e.
        Ensures-bind _ _ (merge_entries slots entries) _ (merge_entries-first slots a s entries k)
          (λ rest f. ground (arith, has-append rs rest (storage a s))))

-- `MergeAccessList` loses the storage keys of the address whose slot map is the first one, since its
-- test is `num > 0`: for an access list with its indices in range it returns a set, and the set has no
-- storage key of an address that stands in the list with the index 0 only.
pub merge_access_list-first :
    (al : AccessList) (a s : ℕ)
    → Readable (some al)
    → All (FirstOnly a) al.addresses
    → (rs : List Resource) × (merge_access_list (some al) ≡ some rs)
      × (has rs (storage a s) ≡ false)
unfolding merge_access_list
merge_access_list-first al a s h k =
    let (rs, e) = merge_entries-some al.slots al.addresses h in
    let lost = merge_entries-first al.slots a s al.addresses k in
    (rs, e, subst (λ x. Ensures (λ y. has y (storage a s) ≡ false) x) e lost)
