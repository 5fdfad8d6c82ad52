-- ===== src/Transition/Gas.antt =====
-- The intrinsic gas against a sum without bounds.
use pangu.Prelude.{
  ℕ, ◌+◌, ◌-◌, ◌*◌, ◌/◌, ◌≤◌, ◌≡◌, ◌⊎◌, refl, inl, inr, Bool, true, false, none, some, List, [],
  ◌∷◌, arith, leb, if◌then◌else◌, length,
}
use pangu.Transition.{
  max_u64, to_word_size, non_zero, base_gas, data_gas, Intrinsic, overflow, nil_list, units,
}

pub non_zero-le-length : (bytes : List ℕ) → non_zero bytes ≤ length bytes
unfolding non_zero
non_zero-le-length [] = omega arith
non_zero-le-length (b ∷ bytes) = ground (arith, non_zero-le-length bytes)

-- `toWordSize` rounds up, and does not overflow.
to_word_size_lem : (size : ℕ) → size ≤ max_u64 → to_word_size size ≡ (size + 31) / 32
unfolding to_word_size
to_word_size_lem size h = ground arith

-- The cost of the data as a sum of natural numbers.
unfoldable pub data_cost : List ℕ → Bool → ℕ
data_cost bytes is_creation =
    base_gas is_creation
    + non_zero bytes * 68
    + (length bytes - non_zero bytes) * 4
    + (if is_creation then ((length bytes + 31) / 32) * 2 else 0)

-- For data of a length that fits uint64, the gas of the data is the sum of the base price, 68 for each
-- byte that is not zero, 4 for each zero byte and, for a creation, 2 for each word begun; it is
-- refused exactly where that sum does not fit uint64.
pub data_gas_lem :
    (bytes : List ℕ) (is_creation : Bool)
    → length bytes ≤ max_u64
    → data_gas bytes is_creation ≡ (
        if leb (data_cost bytes is_creation) max_u64
        then some (data_cost bytes is_creation)
        else none)
unfolding data_gas data_cost
data_gas_lem bytes true h =
    ground (arith, non_zero-le-length bytes, to_word_size_lem (length bytes) h)
data_gas_lem bytes false h = ground (arith, non_zero-le-length bytes)

pub Intrinsic-cases :
    (r : Intrinsic) → (r ≡ overflow) ⊎ (r ≡ nil_list) ⊎ ((base : ℕ) × (r ≡ units base))
Intrinsic-cases overflow = inl refl
Intrinsic-cases nil_list = inr (inl refl)
Intrinsic-cases (units base) = inr (inr (base, refl))
